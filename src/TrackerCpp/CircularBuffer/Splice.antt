-- ===== src/TrackerCpp/CircularBuffer/Splice.antt =====
-- `memcpy` into and out of the array, index by index.
use raiezau.Base.{
  ℕ, ◌+◌, ◌-◌, ◌≤◌, ◌<◌, ◌≡◌, refl, ◌∙◌, true, false, some, List, ◌++◌, arith, length, get_elem?,
  take, drop, ltb, if◌then◌else◌, Bool-cases, inl, inr, length-append,
}
use raiezau.Base.Index.{get_elem?-append, get_elem?-take, get_elem?-drop, length-take, length-drop}
use raiezau.TrackerCpp.CircularBuffer.{splice, copy_in, copy_out}

module _ (buf : List ℕ) (off : ℕ) (xs : List ℕ) (fits : off + length xs ≤ length buf) where
  pub copy_in_fits : copy_in buf off xs ≡ some (splice buf off xs)
  unfolding copy_in
  copy_in_fits = ground arith

  pub length-splice : length (splice buf off xs) ≡ length buf
  unfolding splice
  length-splice = omega (
    arith,
    length-append (take off buf) (xs ++ drop (off + length xs) buf),
    length-append xs (drop (off + length xs) buf),
    length-take off buf (omega arith),
    length-drop (off + length xs) buf,
  )

  pub get_elem?-splice :
      (j : ℕ)
      → get_elem? (splice buf off xs) j ≡ (
          if ltb j off
          then get_elem? buf j
          else if ltb j (off + length xs)
          then get_elem? xs (j - off)
          else get_elem? buf j)
  unfolding splice
  get_elem?-splice j =
      let size = length-take off buf (omega arith) in
      get_elem?-append (take off buf) (xs ++ drop (off + length xs) buf) j
      ∙ rw size (elim (Bool-cases (ltb j off)) [
        | inl e ↦ rw (get_elem?-take off buf j, e) refl
        | inr e ↦ rw e (
            get_elem?-append xs (drop (off + length xs) buf) (j - off)
            ∙ elim (Bool-cases (ltb j (off + length xs))) [
              | inl f ↦ let g : ltb (j - off) (length xs) ≡ true = ground arith in rw (f, g) refl
              | inr f ↦
                  let g : ltb (j - off) (length xs) ≡ false = ground arith in
                  let same : off + length xs + (j - off - length xs) ≡ j = ground arith in
                  rw (f, g, get_elem?-drop (off + length xs) buf (j - off - length xs), same) refl
            ])
      ])

module _ (buf : List ℕ) (off n : ℕ) (fits : off + n ≤ length buf) where
  pub copy_out_fits : copy_out buf off n ≡ some (take n (drop off buf))
  unfolding copy_out
  copy_out_fits = ground arith

  pub length-copied : length (take n (drop off buf)) ≡ n
  length-copied = length-take n (drop off buf) (omega (arith, length-drop off buf))

  pub get_elem?-copied :
      (i : ℕ) → i < n → get_elem? (take n (drop off buf)) i ≡ get_elem? buf (off + i)
  get_elem?-copied i lt =
      let e : ltb i n ≡ true = ground arith in
      get_elem?-take n (drop off buf) i ∙ rw e (get_elem?-drop off buf i)
