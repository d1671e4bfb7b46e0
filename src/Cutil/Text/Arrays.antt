-- ===== src/Cutil/Text/Arrays.antt =====
-- The array that `string_split` and `string_split2` fill from a list that was built front to back.
use mathlib.Core.List.{reverse, reverse-append, reverse-reverse}
use raiezau.Base.{
  ℕ, zero, suc, ◌≤◌, ◌≡◌, refl, ap, ◌∙◌, List, [], ◌∷◌, ◌++◌, append_assoc, append-nil, arith,
  length, set, drop, length-set,
}
use raiezau.Base.Bytes.{Bytes}
use raiezau.Cutil.Text.{store_reversed, uninitialised, array_of}

drop-set :
    (xs : List Bytes) (i : ℕ) (p : Bytes)
    → suc i ≤ length xs
    → drop i (set xs i p) ≡ p ∷ drop (suc i) xs
drop-set [] i p h = absurd (omega arith)
drop-set (x ∷ xs) zero p h = refl
drop-set (x ∷ xs) (suc i) p h = drop-set xs i p (omega arith)

pub reverse-cons {ℓ} : {A : Type ℓ} (x : A) (xs : List A) → reverse (x ∷ xs) ≡ reverse xs ++ x ∷ []
reverse-cons x xs = reverse-append (x ∷ []) xs

store_reversed_lem :
    (li array : List Bytes)
    → length li ≤ length array
    → store_reversed li array ≡ reverse li ++ drop (length li) array
unfolding store_reversed
store_reversed_lem [] array h = refl
store_reversed_lem (p ∷ li) array h =
    store_reversed_lem li (set array (length li) p) (omega (arith, length-set array (length li) p))
    ∙ rw (drop-set array (length li) p h, reverse-cons p li, append_assoc)

length-uninitialised : (n : ℕ) → length (uninitialised n) ≡ n
unfolding uninitialised
length-uninitialised zero = refl
length-uninitialised (suc n) = ap suc (length-uninitialised n)

drop_all : (xs : List Bytes) (n : ℕ) → length xs ≤ n → drop n xs ≡ []
drop_all [] zero h = refl
drop_all [] (suc n) h = refl
drop_all (x ∷ xs) zero h = absurd (omega arith)
drop_all (x ∷ xs) (suc n) h = drop_all xs n (omega arith)

-- The array holds what the list was given, the first element first.
pub array_of-reverse : (ps : List Bytes) → array_of (reverse ps ++ []) ≡ ps
unfolding array_of
array_of-reverse ps = rw (
  append-nil,
  store_reversed_lem (reverse ps) (uninitialised (length (reverse ps)))
      (omega (arith, length-uninitialised (length (reverse ps)))),
  drop_all (uninitialised (length (reverse ps))) (length (reverse ps))
      (omega (arith, length-uninitialised (length (reverse ps)))),
  append-nil,
  reverse-reverse,
)
