-- ===== src/Cutil/Text/Copies.antt =====
-- The other functions of string2.c.
use raiezau.Base.{
  ℕ, zero, suc, ◌+◌, ◌-◌, ◌≤◌, ◌≡◌, ◌≢◌, ◌↔◌, refl, sym, ap, ◌∙◌, true, false, ◌||◌, none, some, [],
  ◌∷◌, ◌++◌, arith, length, length-append, if◌then◌else◌, All, Bool-cases, inl, inr, ◌==◌, take,
  drop, leb, ltb,
}
use raiezau.Base.Bytes.{Bytes, str_eq, str_eq_sound, str_eq_refl}
use raiezau.Cutil.Text.{
  c_string, asprintf, heuristic_size, strstripc, strip_last, str_replace_char,
  string_have_extension,
}

take_all : (n : ℕ) (s : Bytes) → length s ≤ n → take n s ≡ s
take_all zero [] h = refl
take_all zero (c ∷ s) h = absurd (omega arith)
take_all (suc n) [] h = refl
take_all (suc n) (c ∷ s) h = ap (λ t. c ∷ t) (take_all n s (omega arith))

-- `asprintf` gives the whole formatted text and its length, also where the text does not fit into
-- the first buffer.
pub asprintf_lem : (text : Bytes) → asprintf text ≡ (text, length text)
unfolding asprintf
asprintf_lem text = elim (Bool-cases (leb heuristic_size (length text))) [
  | inl e ↦ rw e (ap (λ t. (t, length text)) (take_all (length text + 1 - 1) text (omega arith)))
  | inr e ↦ rw e (ap (λ t. (t, length text)) (take_all (heuristic_size - 1) text (ground arith)))
]

strip_last-append :
    (c d : ℕ) (s : Bytes) → strip_last c (s ++ d ∷ []) ≡ (if d == c then s else s ++ d ∷ [])
unfolding strip_last
strip_last-append c d [] = refl
strip_last-append c d (a ∷ []) = ground arith
strip_last-append c d (a ∷ b ∷ s) = ground (arith, strip_last-append c d (b ∷ s))

some-append : (d c : ℕ) (s : Bytes) → strstripc (s ++ d ∷ []) c ≡ some (strip_last c (s ++ d ∷ []))
unfolding strstripc
some-append d c [] = refl
some-append d c (a ∷ s) = refl

-- `strstripc` removes the last byte if it is `c`, and only then; on an empty string it accesses
-- the byte in front of the string.
pub strstripc_lem :
    (c d : ℕ) (s : Bytes)
    → (strstripc (s ++ d ∷ []) c ≡ some (if d == c then s else s ++ d ∷ []))
      × (strstripc [] c ≡ none)
strstripc_lem c d s =
    (some-append d c s ∙ ap some (strip_last-append c d s), unfold strstripc in refl)

-- The text before the first byte that is one of the two.
pub before_either : ℕ → ℕ → Bytes → Bytes
before_either a b [] = []
before_either a b (c ∷ s) = if c == a || c == b then [] else c ∷ before_either a b s

-- `get_request_handler` of tracker/protocol.c cuts a text with NULs: what is left is the text before
-- the first of the two bytes.
pub c_string-replace :
    (a b : ℕ) (s : Bytes)
    → All (λ c. c ≢ 0) s
    → c_string (str_replace_char (c_string (str_replace_char s a 0)) b 0) ≡ before_either a b s
unfolding c_string str_replace_char before_either
c_string-replace a b [] h = refl
c_string-replace a b (c ∷ s) (n, h) = ground (arith, c_string-replace a b s h)

drop-append : (s t : Bytes) → drop (length s) (s ++ t) ≡ t
drop-append [] t = refl
drop-append (c ∷ s) t = drop-append s t

take-drop : (n : ℕ) (s : Bytes) → take n s ++ drop n s ≡ s
take-drop zero s = refl
take-drop (suc n) [] = refl
take-drop (suc n) (c ∷ s) = ap (λ t. c ∷ t) (take-drop n s)

-- `string_have_extension` holds of a name exactly if the extension ends it.
pub string_have_extension_iff :
    (filename extension : Bytes)
    → (string_have_extension filename extension ≡ true)
      ↔ ((base : Bytes) × (filename ≡ base ++ extension))
unfolding string_have_extension
string_have_extension_iff f e = (
  λ h.
      let same : str_eq e (drop (length f - length e) f) ≡ true = ground arith in
      (
        take (length f - length e) f,
        sym (take-drop (length f - length e) f)
            ∙ ap (λ t. take (length f - length e) f ++ t) (sym (str_eq_sound e _ same)),
      ),
  λ (base, p).
      let n : length f - length e ≡ length base =
        omega (arith, ap length p, length-append base e) in
      let fits : ltb (length f) (length e) ≡ false =
        ground (arith, ap length p, length-append base e) in
      rw (fits, n) (rw (p, drop-append base e) (str_eq_refl e)),
)
