-- ===== src/Cutil/Text/Pieces.antt =====
-- `string_split2` of string2.c: the pieces between occurrences of a delimiter string.
use mathlib.Core.List.{reverse}
use mathlib.Core.Option
use raiezau.Base.{
  ℕ, zero, suc, ◌≤◌, ◌<◌, ◌≡◌, ◌≢◌, refl, sym, ap, ◌∙◌, Option, none, some, List, [], ◌∷◌, ◌++◌,
  append_assoc, arith, length, length-append, All, inl, inr, Option-cases,
}
use raiezau.Base.Bytes.{Bytes}
use raiezau.Cutil.Text.{strip_prefix, strstr, split2_loop, array_of, string_split2}
use raiezau.Cutil.Text.Arrays.{array_of-reverse, reverse-cons}

pos : (d : Bytes) → d ≢ [] → 0 < length d
pos [] ne = absurd (ne refl)
pos (c ∷ d) ne = omega arith

module _ (delim : Bytes) where
  strip_prefix-some : (d s : Bytes) {rest : Bytes} → strip_prefix d s ≡ some rest → s ≡ d ++ rest
  unfolding strip_prefix
  strip_prefix-some [] s h = ground arith
  strip_prefix-some (c ∷ d) [] h = ground arith
  strip_prefix-some (c ∷ d) (b ∷ s) {rest} h = ground (arith, strip_prefix-some d s {rest = rest})

  strip_prefix-nil : (d : Bytes) → d ≢ [] → strip_prefix d [] ≡ none
  unfolding strip_prefix
  strip_prefix-nil [] ne = absurd (ne refl)
  strip_prefix-nil (c ∷ d) ne = refl

  strip_prefix-append :
      (d s x : Bytes) {rest : Bytes}
      → strip_prefix d s ≡ some rest
      → strip_prefix d (s ++ x) ≡ some (rest ++ x)
  unfolding strip_prefix
  strip_prefix-append [] s x h = ground arith
  strip_prefix-append (c ∷ d) [] x h = ground arith
  strip_prefix-append (c ∷ d) (b ∷ s) x {rest} h =
      ground (arith, strip_prefix-append d s x {rest = rest})

  -- The delimiter does not occur in the text.
  abbrev pub Absent : Bytes → Type 0
  Absent s = strstr delim s ≡ none

  Absent-cons :
      (c : ℕ) (b x : Bytes) → strip_prefix delim (c ∷ (b ++ x)) ≡ none → Absent b → Absent (c ∷ b)
  unfolding strstr
  Absent-cons c b x h a = elim (Option-cases (strip_prefix delim (c ∷ b))) [
    | inl e ↦ rw (e, strstr) (rw a)
    | inr (r, e) ↦ let f = strip_prefix-append delim (c ∷ b) x e in cc
  ]

  data Found (s : Bytes) : Option (Bytes × Bytes) → Type 0 where
    absent : Absent s → Found s none
    at : (b rest : Bytes) → s ≡ b ++ (delim ++ rest) → Absent b → Found s (some (b, rest))

  strstr-Found : delim ≢ [] → (s : Bytes) → Found s (strstr delim s)
  unfolding strstr
  strstr-Found ne [] =
      rw (strip_prefix-nil delim ne) (absent (rw (strip_prefix-nil delim ne, strstr)))
  strstr-Found ne (c ∷ s) =
      go (strip_prefix delim (c ∷ s)) refl (strstr delim s) refl (strstr-Found ne s)
    where
      go :
          (o : Option Bytes)
          → strip_prefix delim (c ∷ s) ≡ o
          → (r : Option (Bytes × Bytes)) → strstr delim s ≡ r
          → Found s r
          → Found (c ∷ s) (elim o [
            | some rest ↦ some ([], rest)
            | none ↦ Option.map (λ (before, rest). (c ∷ before, rest)) r
          ])
      go (some rest) e r e' f =
          at [] rest (strip_prefix-some delim (c ∷ s) e) (rw (strip_prefix-nil delim ne, strstr))
      go none e _ e' (absent a) = absent (rw (e, strstr) (rw a))
      go none e _ e' (at b rest eq a) =
          at (c ∷ b) rest (ap (λ t. c ∷ t) eq) (Absent-cons c b (delim ++ rest) (rw (← eq) e) a)

  -- The pieces with the delimiter between them.
  pub glue : List Bytes → Bytes
  glue [] = []
  glue (p ∷ []) = p
  glue (p ∷ q ∷ ps) = p ++ (delim ++ glue (q ∷ ps))

  unfoldable pub pieces : ℕ → Bytes → List Bytes
  pieces zero s = s ∷ []
  pieces (suc fuel) s = elim (strstr delim s) [
    | none ↦ s ∷ []
    | some (b, rest) ↦ b ∷ pieces fuel rest
  ]

  pieces-ne-nil :
      (fuel : ℕ) (s : Bytes) → (p : Bytes) × (ps : List Bytes) × (pieces fuel s ≡ p ∷ ps)
  unfolding pieces
  pieces-ne-nil zero s = (s, [], refl)
  pieces-ne-nil (suc fuel) s = elim (Option-cases (strstr delim s)) [
    | inl e ↦ (s, [], rw (e, pieces))
    | inr ((b, rest), e) ↦ (b, pieces fuel rest, rw (e, pieces))
  ]

  glue-pieces :
      (b : Bytes) (fuel : ℕ) (s : Bytes)
      → glue (b ∷ pieces fuel s) ≡ b ++ (delim ++ glue (pieces fuel s))
  unfolding glue
  glue-pieces b fuel s = let (p, ps, e) = pieces-ne-nil fuel s in rw e

  pieces_sound :
      delim ≢ []
      → (fuel : ℕ) (s : Bytes) → length s ≤ fuel
      → All Absent (pieces fuel s) × (glue (pieces fuel s) ≡ s)
  unfolding pieces strstr
  pieces_sound ne zero [] h = ((rw (strip_prefix-nil delim ne, strstr), tt), unfold glue in refl)
  pieces_sound ne zero (c ∷ s) h = absurd (omega arith)
  pieces_sound ne (suc fuel) s h =
      go (strstr delim s) (strstr-Found ne s) (λ rest lt. pieces_sound ne fuel rest lt)
    where
      go :
          (o : Option (Bytes × Bytes))
          → Found s o
          → ((rest : Bytes)
              → length rest ≤ fuel
              → All Absent (pieces fuel rest) × (glue (pieces fuel rest) ≡ rest))
          → let ps : List Bytes = elim o [
            | none ↦ s ∷ []
            | some (b, rest) ↦ b ∷ pieces fuel rest
          ] in
            All Absent ps × (glue ps ≡ s)
      go _ (absent a) ih = ((a, tt), unfold glue in refl)
      go _ (at b rest e a) ih =
          let n = length-append b (delim ++ rest) in
          let (rests, whole) =
            ih rest (omega (arith, ap length e, n, length-append delim rest, pos delim ne)) in
          ((a, rests), glue-pieces b fuel rest ∙ ap (λ t. b ++ (delim ++ t)) whole ∙ sym e)

  split2_loop-pieces :
      (fuel : ℕ) (s : Bytes) (li : List Bytes)
      → split2_loop delim fuel s li ≡ reverse (pieces fuel s) ++ li
  unfolding split2_loop pieces
  split2_loop-pieces zero s li = refl
  split2_loop-pieces (suc fuel) s li =
      go (strstr delim s) (λ b rest. split2_loop-pieces fuel rest (b ∷ li))
    where
      go :
          (o : Option (Bytes × Bytes))
          → ((b rest : Bytes)
              → split2_loop delim fuel rest (b ∷ li) ≡ reverse (pieces fuel rest) ++ b ∷ li)
          → elim o [ none ↦ s ∷ li | some (b, rest) ↦ split2_loop delim fuel rest (b ∷ li) ]
            ≡ reverse (elim o [ none ↦ s ∷ [] | some (b, rest) ↦ b ∷ pieces fuel rest ]) ++ li
      go none ih = refl
      go (some (b, rest)) ih = rw (ih b rest, reverse-cons b (pieces fuel rest), append_assoc)

  pub string_split2-pieces : (s : Bytes) → string_split2 s delim ≡ pieces (length s) s
  unfolding string_split2
  string_split2-pieces s =
      ap array_of (split2_loop-pieces (length s) s []) ∙ array_of-reverse (pieces (length s) s)

  -- For a delimiter that is not empty, the pieces that `string_split2` returns hold no occurrence of
  -- the delimiter, and with the delimiter between them they are the text again.
  pub glue-string_split2 :
      delim ≢ []
      → (s : Bytes) → All Absent (string_split2 s delim) × (glue (string_split2 s delim) ≡ s)
  glue-string_split2 ne s = rw (string_split2-pieces s) (pieces_sound ne (length s) s (omega arith))

  pieces-Absent : (fuel : ℕ) (s : Bytes) → Absent s → pieces fuel s ≡ s ∷ []
  unfolding pieces
  pieces-Absent zero s a = refl
  pieces-Absent (suc fuel) s a = rw (a, pieces)

  pieces_found :
      (fuel : ℕ) (s before rest : Bytes)
      → strstr delim s ≡ some (before, rest)
      → pieces (suc fuel) s ≡ before ∷ pieces fuel rest
  unfolding pieces
  pieces_found fuel s before rest e = rw (e, pieces)

  -- A text without the delimiter is one piece, and one with a single occurrence is two.
  pub string_split2_one : (s : Bytes) → Absent s → string_split2 s delim ≡ s ∷ []
  string_split2_one s a = string_split2-pieces s ∙ pieces-Absent (length s) s a

  pub string_split2_two :
      (c : ℕ) (s before rest : Bytes)
      → strstr delim (c ∷ s) ≡ some (before, rest)
      → Absent rest
      → string_split2 (c ∷ s) delim ≡ before ∷ rest ∷ []
  string_split2_two c s before rest e a =
      string_split2-pieces (c ∷ s)
      ∙ pieces_found (length s) (c ∷ s) before rest e
      ∙ ap (λ ps. before ∷ ps) (pieces-Absent (length s) rest a)
