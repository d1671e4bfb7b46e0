-- ===== src/TrackerCpp/Text.antt =====
-- What the earlier tracker uses of the C++ library for text: `find`, `stoul` and `stoi`, reading from
-- a `stringstream`; and `split` of tracker_cpp/common/Util.cpp. `none` is an exception.
use raiezau.Base.{
  ℕ, ◌-◌, ◌%◌, ◌^◌, Bool, true, false, not, ◌&&◌, Option, none, some, List, [], ◌∷◌, ◌++◌, ◌==◌,
  leb, ltb, if◌then◌else◌, suc,
}
use raiezau.Base.Bytes.{Bytes}
use raiezau.Base.Int.{ℤ, pos, negsuc}
use raiezau.Tracker.Env.{leading, skip_space}
use raiezau.Tracker.Protocol.{first_word, after_word}

unfoldable pub starts_with : Bytes → Bytes → Bool
starts_with [] s = true
starts_with (c ∷ d) [] = false
starts_with (c ∷ d) (x ∷ s) = c == x && starts_with d s

-- `s.find(d)`; `none` is `npos`
unfoldable pub find_text : Bytes → Bytes → Option ℕ
unfolding starts_with
find_text d [] = if starts_with d [] then some 0 else none
find_text d (x ∷ s) =
    let later = find_text d s in
    if starts_with d (x ∷ s) then some 0 else elim later [ none ↦ none | some i ↦ some (suc i) ]

-- digits that make a number of 64 bits; more of them are `out_of_range`, none `invalid_argument`
magnitude : Bytes → Option ℕ
unfolding leading
magnitude [] = none
magnitude (c ∷ s) =
    let n = leading 0 (c ∷ s) in
    if leb b'0' c && leb c b'9' then (if ltb n (2 ^ 64) then some n else none) else none

negated : Option ℕ → Option ℕ
negated none = none
negated (some n) = some ((2 ^ 64 - n) % 2 ^ 64)

-- a negative number is taken modulo 2 ^ 64
unfoldable pub stoul : Bytes → Option ℕ
unfolding magnitude negated skip_space
stoul s = elim (skip_space s) [
  | [] ↦ none
  | c ∷ t ↦
      if c == b'-'
      then negated (magnitude t)
      else if c == b'+'
      then magnitude t
      else magnitude (c ∷ t)
]

-- in the range of `int`
positive : Option ℕ → Option ℤ
positive none = none
positive (some n) = if ltb n (2 ^ 31) then some (pos n) else none

negative : Option ℕ → Option ℤ
negative none = none
negative (some n) =
    if n == 0 then some (pos 0) else if leb n (2 ^ 31) then some (negsuc (n - 1)) else none

unfoldable pub stoi : Bytes → Option ℤ
unfolding magnitude positive negative skip_space
stoi s = elim (skip_space s) [
  | [] ↦ none
  | c ∷ t ↦
      if c == b'-'
      then negative (magnitude t)
      else positive (if c == b'+' then magnitude t else magnitude (c ∷ t))
]

-- a `stringstream`: what was not read yet, and `good()`
pub record Stream : Type 0 where
  pub rest : Bytes
  pub good : Bool

abbrev pub stream : Bytes → Stream
stream s = record { rest = s; good = true }

abbrev pub no_text : Bytes → Bool
no_text [] = true
no_text (c ∷ s) = false

-- `line >> word`: the word that is there keeps its text if none can be read, and a word at the end of
-- the stream leaves it not good
unfoldable pub read_word : Stream → Bytes → Bytes × Stream
unfolding skip_space first_word after_word
read_word line word =
    if line.good
    then elim (skip_space line.rest) [
      | [] ↦ (word, record { rest = []; good = false })
      | c ∷ s ↦ (
        first_word (c ∷ s),
        record { rest = after_word (c ∷ s); good = not (no_text (after_word (c ∷ s))) },
      )
    ]
    else (word, line)

-- the bytes before the first `d`, and those behind it, if there is one
unfoldable pub before_first : ℕ → Bytes → Bytes
before_first d [] = []
before_first d (c ∷ s) = let later = before_first d s in if c == d then [] else c ∷ later

unfoldable pub after_first : ℕ → Bytes → Option Bytes
after_first d [] = none
after_first d (c ∷ s) = let later = after_first d s in if c == d then some s else later

-- `getline(line, text, d)`: the text keeps its bytes if the stream is not good
unfoldable pub getline : ℕ → Stream → Bytes → Bytes × Stream
unfolding before_first after_first
getline d line text =
    if line.good
    then (
      before_first d line.rest,
      elim (after_first d line.rest) [
        | none ↦ record { rest = []; good = false }
        | some s ↦ record { rest = s; good = true }
      ],
    )
    else (text, line)

-- the tokens of `split` behind the bytes `tok`
split_from : ℕ → Bytes → Bytes → List Bytes
split_from d [] [] = []
split_from d (t ∷ tok) [] = (t ∷ tok) ∷ []
split_from d tok (c ∷ s) =
    let closed = split_from d [] s in
    let longer = split_from d (tok ++ c ∷ []) s in if c == d then tok ∷ closed else longer

unfoldable pub split : Bytes → ℕ → List Bytes
unfolding split_from
split str d = split_from d [] str
