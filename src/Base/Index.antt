-- ===== src/Base/Index.antt =====
-- What the lists of an append, a `take` and a `drop` hold at an index, and equality by indices.
use raiezau.Base.{
  ℕ, zero, suc, ◌+◌, ◌-◌, ◌≤◌, ◌<◌, ◌≡◌, refl, ap, ◌∙◌, none, some, List, [], ◌∷◌, ◌++◌, arith,
  length, get_elem?, take, drop, ltb, if◌then◌else◌,
}

module _ {A : Type 0} where
  pub get_elem?-append :
      (xs ys : List A) (i : ℕ)
      → get_elem? (xs ++ ys) i
        ≡ (if ltb i (length xs) then get_elem? xs i else get_elem? ys (i - length xs))
  get_elem?-append [] ys i = let e : i - 0 ≡ i = omega arith in ground arith
  get_elem?-append (x ∷ xs) ys zero = ground arith
  get_elem?-append (x ∷ xs) ys (suc i) =
      let e : suc i - suc (length xs) ≡ i - length xs = omega arith in
      get_elem?-append xs ys i ∙ rw e (ground arith)

  pub get_elem?-take :
      (n : ℕ) (xs : List A) (i : ℕ)
      → get_elem? (take n xs) i ≡ (if ltb i n then get_elem? xs i else none)
  get_elem?-take zero xs i = ground arith
  get_elem?-take (suc n) [] i = ground arith
  get_elem?-take (suc n) (x ∷ xs) zero = ground arith
  get_elem?-take (suc n) (x ∷ xs) (suc i) = get_elem?-take n xs i ∙ ground arith

  pub get_elem?-drop :
      (n : ℕ) (xs : List A) (i : ℕ) → get_elem? (drop n xs) i ≡ get_elem? xs (n + i)
  get_elem?-drop zero xs i = ap (get_elem? xs) (omega arith)
  get_elem?-drop (suc n) [] i = refl
  get_elem?-drop (suc n) (x ∷ xs) i =
      let e : suc (n + i) ≡ suc n + i = omega arith in
      get_elem?-drop n xs i ∙ ap (get_elem? (x ∷ xs)) e

  pub length-take : (n : ℕ) (xs : List A) → n ≤ length xs → length (take n xs) ≡ n
  length-take zero xs h = refl
  length-take (suc n) [] h = absurd (omega arith)
  length-take (suc n) (x ∷ xs) h = ap suc (length-take n xs (omega arith))

  pub length-drop : (n : ℕ) (xs : List A) → length (drop n xs) ≡ length xs - n
  length-drop zero xs = omega arith
  length-drop (suc n) [] = omega arith
  length-drop (suc n) (x ∷ xs) = omega (arith, length-drop n xs)

  pub take-append-drop : (n : ℕ) (xs : List A) → take n xs ++ drop n xs ≡ xs
  take-append-drop zero xs = refl
  take-append-drop (suc n) [] = refl
  take-append-drop (suc n) (x ∷ xs) = ap (λ t. x ∷ t) (take-append-drop n xs)

  drop-nil : (i : ℕ) → drop {A = A} i [] ≡ []
  drop-nil zero = refl
  drop-nil (suc i) = refl

  tail : List A → List A
  tail [] = []
  tail (x ∷ xs) = xs

  -- What is dropped up to an element begins with it.
  pub drop-suc :
      (i : ℕ) (xs : List A) {y : A} {ys : List A}
      → drop i xs ≡ y ∷ ys
      → (get_elem? xs i ≡ some y) × (drop (suc i) xs ≡ ys)
  unfolding tail
  drop-suc i [] e = absurd (grind (arith, drop-nil i))
  drop-suc zero (x ∷ xs) e = (ap (λ l. get_elem? l 0) e, ap tail e)
  drop-suc (suc i) (x ∷ xs) e = drop-suc i xs e

  -- Lists of one length that agree at every index of it are equal.
  pub eq_of_elements :
      (xs ys : List A)
      → length xs ≡ length ys
      → ((i : ℕ) → i < length xs → get_elem? xs i ≡ get_elem? ys i)
      → xs ≡ ys
  eq_of_elements [] [] e h = refl
  eq_of_elements [] (y ∷ ys) e h = absurd (omega arith)
  eq_of_elements (x ∷ xs) [] e h = absurd (omega arith)
  eq_of_elements (x ∷ xs) (y ∷ ys) e h =
      let first : some x ≡ some y = h 0 (omega arith) in
      let rest = eq_of_elements xs ys (omega arith) (λ i lt. h (suc i) (omega arith)) in cc
