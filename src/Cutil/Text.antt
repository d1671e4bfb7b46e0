-- ===== src/Cutil/Text.antt =====
-- cutil/string2.c. A string is the list of its bytes without the terminating NUL; a buffer in which
-- NULs were written is a list of bytes, and `c_string` is what it reads as.
mod Arrays
pub mod Copies
pub mod Tokens
pub mod Pieces
use mathlib.Core.Option
use raiezau.Base.{
  ℕ, zero, suc, ◌+◌, ◌-◌, Bool, true, false, ◌&&◌, Option, none, some, List, [], ◌∷◌, ◌==◌,
  if◌then◌else◌, length, take, drop, set, ltb, leb, not,
}
use raiezau.Base.Bytes.{Bytes, str_eq, codes}

-- The string that a buffer holds: what stands before its first NUL.
unfoldable pub c_string : Bytes → Bytes
c_string [] = []
c_string (c ∷ s) = if c == 0 then [] else c ∷ c_string s

abbrev pub heuristic_size : ℕ
heuristic_size = 64

-- `vsnprintf(buf, n, …)`, where `text` is the formatted text: it stores n - 1 bytes at most.
pub vsnprintf : ℕ → Bytes → Bytes
vsnprintf n text = take (n - 1) text

-- the string in `*strp`, and the result
unfoldable pub asprintf : Bytes → Bytes × ℕ
unfolding vsnprintf
asprintf text =
    let n = length text in
    (if leb heuristic_size n then vsnprintf (n + 1) text else vsnprintf heuristic_size text, n)

unfoldable pub character_is_in_string : ℕ → Bytes → Bool
character_is_in_string c [] = false
character_is_in_string c (d ∷ str) = if c == d then true else character_is_in_string c str

-- the loop's body at the last byte
pub strip_last : ℕ → Bytes → Bytes
strip_last c [] = []
strip_last c (d ∷ []) = if d == c then [] else d ∷ []
strip_last c (d ∷ e ∷ s) = d ∷ strip_last c (e ∷ s)

-- `none` is the access of `str[-1]`, at an empty string
unfoldable pub strstripc : Bytes → ℕ → Option Bytes
unfolding strip_last
strstripc [] c = none
strstripc (d ∷ s) c = some (strip_last c (d ∷ s))

-- the buffer that is returned; the loop looks at each byte before it writes there
unfoldable pub str_replace_char : Bytes → ℕ → ℕ → Bytes
str_replace_char [] from to = []
str_replace_char (c ∷ rep) from to = (if c == from then to else c) ∷ str_replace_char rep from to

unfoldable pub strstrip : Bytes → Option Bytes
strstrip str = strstripc str b'\n'

-- `(*buf_addr)[s - i] = list_get(li, i)` for i = 1 … s: the list is stored back to front.
pub store_reversed : List Bytes → List Bytes → List Bytes
store_reversed [] array = array
store_reversed (p ∷ li) array = store_reversed li (set array (length li) p)

-- the array that `malloc` returns, before it is written
pub uninitialised : ℕ → List Bytes
uninitialised zero = []
uninitialised (suc n) = [] ∷ uninitialised n

pub array_of : List Bytes → List Bytes
unfolding store_reversed uninitialised
array_of li = store_reversed li (uninitialised (length li))

-- `strtok_r`: the bytes of `delim` that come first are skipped, the token ends before the next one,
-- and `saveptr` stands behind that. `none` is NULL.
pub skip_delim : Bytes → Bytes → Bytes
unfolding character_is_in_string
skip_delim delim [] = []
skip_delim delim (c ∷ s) = if character_is_in_string c delim then skip_delim delim s else c ∷ s

pub token : Bytes → Bytes → Bytes
unfolding character_is_in_string
token delim [] = []
token delim (c ∷ s) = if character_is_in_string c delim then [] else c ∷ token delim s

pub after_token : Bytes → Bytes → Bytes
unfolding character_is_in_string
after_token delim [] = []
after_token delim (c ∷ s) = if character_is_in_string c delim then s else after_token delim s

pub strtok_r : Bytes → Bytes → Option (Bytes × Bytes)
unfolding skip_delim token after_token
strtok_r delim s = elim (skip_delim delim s) [
  | [] ↦ none
  | c ∷ rest ↦ some (token delim (c ∷ rest), after_token delim (c ∷ rest))
]

-- The loop of `string_split`: `list_add` puts each token in front. Each round consumes a byte.
pub split_loop : Bytes → ℕ → Bytes → List Bytes → List Bytes
unfolding strtok_r
split_loop delim zero s li = li
split_loop delim (suc fuel) s li = elim (strtok_r delim s) [
  | none ↦ li
  | some (p, rest) ↦ split_loop delim fuel rest (p ∷ li)
]

-- the array; the result of the function is its length
unfoldable pub string_split : Bytes → Bytes → List Bytes
unfolding split_loop array_of
string_split str delim = array_of (split_loop delim (length str + 1) str [])

-- What is left behind a prefix.
pub strip_prefix : Bytes → Bytes → Option Bytes
strip_prefix [] s = some s
strip_prefix (d ∷ delim) [] = none
strip_prefix (d ∷ delim) (c ∷ s) = if d == c then strip_prefix delim s else none

-- `strstr`: what stands before the first occurrence of `delim`, and behind it.
unfoldable pub strstr : Bytes → Bytes → Option (Bytes × Bytes)
unfolding strip_prefix
strstr delim [] = Option.map (λ rest. ([], rest)) (strip_prefix delim [])
strstr delim (c ∷ s) = elim (strip_prefix delim (c ∷ s)) [
  | some rest ↦ some ([], rest)
  | none ↦ Option.map (λ (before, rest). (c ∷ before, rest)) (strstr delim s)
]

-- The loop of `string_split2`, with the `list_add` that follows it.
pub split2_loop : Bytes → ℕ → Bytes → List Bytes → List Bytes
unfolding strstr
split2_loop delim zero s li = s ∷ li
split2_loop delim (suc fuel) s li = elim (strstr delim s) [
  | none ↦ s ∷ li
  | some (before, rest) ↦ split2_loop delim fuel rest (before ∷ li)
]

unfoldable pub string_split2 : Bytes → Bytes → List Bytes
unfolding split2_loop array_of
string_split2 str delim = array_of (split2_loop delim (length str) str [])

unfoldable pub string_have_extension : Bytes → Bytes → Bool
string_have_extension filename extension =
    let l = length filename in
    let e = length extension in if ltb l e then false else str_eq extension (drop (l - e) filename)
