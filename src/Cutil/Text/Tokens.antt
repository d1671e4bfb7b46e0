-- ===== src/Cutil/Text/Tokens.antt =====
-- `string_split` of string2.c: the tokens between delimiters.
use mathlib.Core.List.{reverse}
use raiezau.Base.{
  ℕ, zero, suc, ◌+◌, ◌≤◌, ◌<◌, ◌≡◌, ◌≢◌, refl, sym, ap, ◌∙◌, true, false, Option, none, some, List,
  [], ◌∷◌, ◌++◌, append_assoc, arith, length, length-append, if◌then◌else◌, All, Bool-cases, inl,
  inr,
}
use raiezau.Base.Bytes.{Bytes}
use raiezau.Cutil.Text.{
  character_is_in_string, skip_delim, token, after_token, strtok_r, split_loop, array_of,
  string_split,
}
use raiezau.Cutil.Text.Arrays.{array_of-reverse, reverse-cons}

module _ (delim : Bytes) where
  -- No byte of the text is a delimiter.
  abbrev pub Free : Bytes → Type 0
  Free = All (λ c. character_is_in_string c delim ≡ false)

  -- The text without its delimiters.
  unfoldable pub keep : Bytes → Bytes
  keep [] = []
  keep (c ∷ s) = if character_is_in_string c delim then keep s else c ∷ keep s

  keep-skip : (s : Bytes) → keep (skip_delim delim s) ≡ keep s
  unfolding keep skip_delim
  keep-skip [] = refl
  keep-skip (c ∷ s) = ground (arith, keep-skip s)

  keep-token : (s : Bytes) → keep s ≡ token delim s ++ keep (after_token delim s)
  unfolding keep token after_token
  keep-token [] = refl
  keep-token (c ∷ s) = ground (arith, keep-token s)

  token-Free : (s : Bytes) → Free (token delim s)
  unfolding token
  token-Free [] = tt
  token-Free (c ∷ s) = elim (Bool-cases (character_is_in_string c delim)) [
    | inl e ↦ rw e tt
    | inr e ↦ rw e (e, token-Free s)
  ]

  skip_head :
      (s : Bytes) {c : ℕ} {rest : Bytes}
      → skip_delim delim s ≡ c ∷ rest
      → character_is_in_string c delim ≡ false
  unfolding skip_delim
  skip_head [] h = ground arith
  skip_head (d ∷ s) {c} {rest} h = ground (arith, skip_head s {c = c} {rest = rest})

  length-skip : (s : Bytes) → length (skip_delim delim s) ≤ length s
  unfolding skip_delim
  length-skip [] = omega arith
  length-skip (c ∷ s) = ground (arith, length-skip s)

  length-after : (c : ℕ) (s : Bytes) → length (after_token delim (c ∷ s)) ≤ length s
  unfolding after_token
  length-after c [] = ground arith
  length-after c (d ∷ s) = ground (arith, length-after d s)

  -- What one call of `strtok_r` returns.
  data Token (s : Bytes) : Option (Bytes × Bytes) → Type 0 where
    last : keep s ≡ [] → Token s none
    next :
        (p rest : Bytes)
        → p ≢ []
        → Free p
        → keep s ≡ p ++ keep rest
        → length rest < length s
        → Token s (some (p, rest))

  strtok_r-Token : (s : Bytes) → Token s (strtok_r delim s)
  unfolding strtok_r
  strtok_r-Token s = go (skip_delim delim s) refl
    where
      go :
          (k : Bytes)
          → skip_delim delim s ≡ k
          → Token s (elim k [
            | [] ↦ none
            | c ∷ rest ↦ some (token delim (c ∷ rest), after_token delim (c ∷ rest))
          ])
      go [] e = last (sym (keep-skip s) ∙ ap keep e ∙ unfold keep in refl)
      go (c ∷ rest) e =
          next (token delim (c ∷ rest)) (after_token delim (c ∷ rest))
            (unfold token in rw (skip_head s e) (λ h. cc)) (token-Free (c ∷ rest))
            (sym (keep-skip s) ∙ ap keep e ∙ keep-token (c ∷ rest))
            (omega (arith, length-skip s, ap length e, length-after c rest))

  -- The tokens in order, as a loop that stores them front to back finds them.
  forward : ℕ → Bytes → List Bytes
  forward zero s = []
  forward (suc fuel) s = elim (strtok_r delim s) [
    | none ↦ []
    | some (p, rest) ↦ p ∷ forward fuel rest
  ]

  split_loop-forward :
      (fuel : ℕ) (s : Bytes) (li : List Bytes)
      → split_loop delim fuel s li ≡ reverse (forward fuel s) ++ li
  unfolding split_loop forward
  split_loop-forward zero s li = refl
  split_loop-forward (suc fuel) s li =
      go (strtok_r delim s) (λ p rest. split_loop-forward fuel rest (p ∷ li))
    where
      go :
          (o : Option (Bytes × Bytes))
          → ((p rest : Bytes)
              → split_loop delim fuel rest (p ∷ li) ≡ reverse (forward fuel rest) ++ p ∷ li)
          → elim o [ none ↦ li | some (p, rest) ↦ split_loop delim fuel rest (p ∷ li) ]
            ≡ reverse (elim o [ none ↦ [] | some (p, rest) ↦ p ∷ forward fuel rest ]) ++ li
      go none ih = refl
      go (some (p, rest)) ih = rw (ih p rest, reverse-cons p (forward fuel rest), append_assoc)

  string_split-forward : (s : Bytes) → string_split s delim ≡ forward (length s + 1) s
  unfolding string_split
  string_split-forward s =
      ap array_of (split_loop-forward (length s + 1) s [])
      ∙ array_of-reverse (forward (length s + 1) s)

  -- A token is not empty and holds no delimiter.
  abbrev pub IsToken : Bytes → Type 0
  IsToken p = (p ≢ []) × Free p

  unfoldable pub concat : List Bytes → Bytes
  concat [] = []
  concat (p ∷ ps) = p ++ concat ps

  forward_sound :
      (fuel : ℕ) (s : Bytes)
      → length s < fuel
      → All IsToken (forward fuel s) × (concat (forward fuel s) ≡ keep s)
  unfolding forward concat
  forward_sound zero s h = absurd (omega arith)
  forward_sound (suc fuel) s h =
      go (strtok_r delim s) (strtok_r-Token s) (λ rest lt. forward_sound fuel rest (omega arith))
    where
      go :
          (o : Option (Bytes × Bytes))
          → Token s o
          → ((rest : Bytes)
              → length rest < length s
              → All IsToken (forward fuel rest) × (concat (forward fuel rest) ≡ keep rest))
          → All IsToken (elim o [ none ↦ [] | some (p, rest) ↦ p ∷ forward fuel rest ])
            × (concat (elim o [ none ↦ [] | some (p, rest) ↦ p ∷ forward fuel rest ]) ≡ keep s)
      go _ (last e) ih = (tt, sym e)
      go _ (next p rest ne free e lt) ih =
          (((ne, free), (ih rest lt).0), ap (λ t. p ++ t) (ih rest lt).1 ∙ sym e)

  -- Every piece that `string_split` returns is not empty and holds no delimiter, and the pieces one
  -- after another are the text without its delimiters, whatever the text and the delimiters.
  pub string_split_sound :
      (s : Bytes) → All IsToken (string_split s delim) × (concat (string_split s delim) ≡ keep s)
  string_split_sound s = rw (string_split-forward s) (forward_sound (length s + 1) s (omega arith))

  -- Pieces with the delimiter byte `d` between them.
  pub join : ℕ → List Bytes → Bytes
  join d [] = []
  join d (p ∷ []) = p
  join d (p ∷ q ∷ ps) = p ++ d ∷ join d (q ∷ ps)

  token-append :
      (p : Bytes) (d : ℕ) (rest : Bytes)
      → Free p
      → character_is_in_string d delim ≡ true
      → (token delim (p ++ d ∷ rest) ≡ p) × (after_token delim (p ++ d ∷ rest) ≡ rest)
  unfolding token after_token
  token-append [] d rest free e = rw e (refl, refl)
  token-append (c ∷ p) d rest (n, free) e =
      rw n (ap (λ t. c ∷ t) (token-append p d rest free e).0, (token-append p d rest free e).1)

  token_all : (p : Bytes) → Free p → (token delim p ≡ p) × (after_token delim p ≡ [])
  unfolding token after_token
  token_all [] free = (refl, refl)
  token_all (c ∷ p) (n, free) = rw n (ap (λ t. c ∷ t) (token_all p free).0, (token_all p free).1)

  skip_none :
      (c : ℕ) (s : Bytes)
      → character_is_in_string c delim ≡ false
      → skip_delim delim (c ∷ s) ≡ c ∷ s
  unfolding skip_delim
  skip_none c s n = rw n

  strtok_r-append :
      (p : Bytes) (d : ℕ) (rest : Bytes)
      → IsToken p
      → character_is_in_string d delim ≡ true
      → strtok_r delim (p ++ d ∷ rest) ≡ some (p, rest)
  unfolding strtok_r
  strtok_r-append [] d rest (ne, _) e = absurd (ne refl)
  strtok_r-append (c ∷ p) d rest (_, (n, free)) e =
      let (a, b) = token-append (c ∷ p) d rest (n, free) e in
      rw (skip_none c (p ++ d ∷ rest) n, strtok_r) (rw (a, b))

  strtok_r_all : (p : Bytes) → IsToken p → strtok_r delim p ≡ some (p, [])
  unfolding strtok_r
  strtok_r_all [] (ne, _) = absurd (ne refl)
  strtok_r_all (c ∷ p) (_, (n, free)) =
      let (a, b) = token_all (c ∷ p) (n, free) in rw (skip_none c p n, strtok_r) (rw (a, b))

  forward-nil : (fuel : ℕ) → forward fuel [] ≡ []
  unfolding forward strtok_r skip_delim
  forward-nil zero = refl
  forward-nil (suc fuel) = refl

  join_two :
      (d : ℕ) (p q : Bytes) (ps : List Bytes) → join d (p ∷ q ∷ ps) ≡ p ++ d ∷ join d (q ∷ ps)
  unfolding join
  join_two d p q ps = refl

  forward-join :
      (d : ℕ) (ps : List Bytes) (fuel : ℕ)
      → character_is_in_string d delim ≡ true
      → All IsToken ps
      → length (join d ps) < fuel
      → forward fuel (join d ps) ≡ ps
  unfolding forward join
  forward-join d ps zero e h lt = absurd (omega arith)
  forward-join d [] (suc fuel) e h lt = unfold forward strtok_r skip_delim join in refl
  forward-join d (p ∷ []) (suc fuel) e (h, _) lt =
      rw (forward, join, strtok_r_all p h) (ap (λ t. p ∷ t) (forward-nil fuel))
  forward-join d (p ∷ q ∷ ps) (suc fuel) e (h, hs) lt =
      rw (forward, join, strtok_r-append p d (join d (q ∷ ps)) h e)
        (ap (λ t. p ∷ t)
          (forward-join d (q ∷ ps) fuel e hs
            (omega (arith, length-append p (d ∷ join d (q ∷ ps)), ap length (join_two d p q ps)))))

  -- Pieces that are not empty and hold no delimiter, with a delimiter byte between them, are what
  -- `string_split` cuts their text into.
  pub string_split-join :
      (d : ℕ) (ps : List Bytes)
      → character_is_in_string d delim ≡ true
      → All IsToken ps
      → string_split (join d ps) delim ≡ ps
  string_split-join d ps e h =
      string_split-forward (join d ps)
      ∙ forward-join d ps (length (join d ps) + 1) e h (omega arith)
