-- ===== src/TrackerCpp/Criterion/Matching.antt =====
-- Which criterion a word of a `look` is read by, and what its argument is.
use raiezau.Base.{
  ℕ, suc, ◌+◌, ◌≡◌, refl, sym, ap, ◌∙◌, Bool, true, false, not, ◌&&◌, ◌||◌, Option, none, some, [],
  ◌∷◌, ◌++◌, ◌==◌, arith, append_assoc, length, length-append, take, drop, Bool-cases, Option-cases,
  inl, inr,
}
use raiezau.Base.Bytes.{Bytes, str_eq}
use raiezau.TrackerCpp.CircularBuffer.Search.{has}
use raiezau.TrackerCpp.Criterion.{Criterion, matches, quoted_argument}
use raiezau.TrackerCpp.Text.{find_text, starts_with, before_first}

-- Whether the keyword is in front of the delimiter's first occurrence.
located : Option ℕ → Bytes → Bytes → Bool
located none value k = false
located (some at) value k = str_eq (take at value) k

located_later :
    (o : Option ℕ) (x y : ℕ) (s k : Bytes)
    → located (elim o [ none ↦ none | some i ↦ some (suc i) ]) (x ∷ s) (y ∷ k)
      ≡ (x == y && located o s k)
unfolding located str_eq
located_later none x y s k = ground arith
located_later (some i) x y s k = refl

located_start :
    (o : Option ℕ) (x : ℕ) (s : Bytes)
    → located (elim o [ none ↦ none | some i ↦ some (suc i) ]) (x ∷ s) [] ≡ false
unfolding located str_eq
located_start none x s = refl
located_start (some i) x s = refl

module _ (h : ℕ) (d : Bytes) where
  -- A keyword that lacks the delimiter's first byte.
  located_lem :
      (k value : Bytes)
      → has h k ≡ false
      → located (find_text (h ∷ d) value) value k ≡ starts_with (k ++ h ∷ d) value
  unfolding located find_text starts_with has str_eq
  located_lem [] [] clear = refl
  located_lem [] (x ∷ s) clear = elim (Bool-cases (h == x && starts_with d s)) [
    | inl e ↦ rw e refl
    | inr e ↦ rw e (located_start (find_text (h ∷ d) s) x s)
  ]
  located_lem (y ∷ k) [] clear = refl
  located_lem (y ∷ k) (x ∷ s) clear = elim (Bool-cases (h == x && starts_with d s)) [
    | inl e ↦ let other : (y == x) ≡ false = ground arith in rw (e, other) refl
    | inr e ↦
        let same : (x == y) ≡ (y == x) = ground arith in
        let clear' : has h k ≡ false = ground arith in
        rw e (located_later (find_text (h ∷ d) s) x y s k ∙ rw (same, located_lem k s clear') refl)
  ]

  find_lem :
      (k rest : Bytes)
      → has h k ≡ false
      → starts_with (h ∷ d) ((h ∷ d) ++ rest) ≡ true
      → find_text (h ∷ d) (k ++ ((h ∷ d) ++ rest)) ≡ some (length k)
  unfolding find_text starts_with has
  find_lem [] rest clear self = rw self refl
  find_lem (y ∷ k) rest clear self =
      let other : (h == y) ≡ false = ground arith in
      let clear' : has h k ≡ false = ground arith in rw (other, find_lem k rest clear' self) refl

-- The keyword lacks the first byte of the delimiter.
unfoldable pub fits : Criterion → Bool
unfolding has
fits c = elim c.delim [ [] ↦ false | h ∷ d ↦ not (has h c.keyword) ]

-- What a word of the criterion begins with.
abbrev pub start : Criterion → Bytes
start c = c.keyword ++ c.delim

-- Two texts differ at a place that both have.
unfoldable pub differ : Bytes → Bytes → Bool
differ [] b = false
differ (x ∷ a) [] = false
differ (x ∷ a) (y ∷ b) = not (x == y) || differ a b

pub starts_with-differ : (a b rest : Bytes) → differ a b ≡ true → starts_with a (b ++ rest) ≡ false
unfolding differ starts_with
starts_with-differ [] b rest h = ground arith
starts_with-differ (x ∷ a) [] rest h = ground arith
starts_with-differ (x ∷ a) (y ∷ b) rest h = elim (Bool-cases (differ a b)) [
  | inl e ↦ ground (arith, starts_with-differ a b rest e)
  | inr e ↦ ground arith
]

pub starts_with_self : (a rest : Bytes) → starts_with a (a ++ rest) ≡ true
unfolding starts_with
starts_with_self [] rest = refl
starts_with_self (x ∷ a) rest = ground (arith, starts_with_self a rest)

matches-located :
    (c : Criterion) (value : Bytes)
    → matches c value ≡ located (find_text c.delim value) value c.keyword
unfolding matches located
matches-located c value = elim (Option-cases (find_text c.delim value)) [
  | inl e ↦ rw (matches, e) refl
  | inr (at, e) ↦ rw (matches, e) refl
]

fits-cons :
    (c : Criterion)
    → fits c ≡ true
    → (h : ℕ) × (d : Bytes) × (c.delim ≡ h ∷ d) × (has h c.keyword ≡ false)
unfolding fits
fits-cons c = go c.delim
  where
    go :
        (l : Bytes)
        → elim l as (λ _. Bool) [ [] ↦ false | h ∷ d ↦ not (has h c.keyword) ] ≡ true
        → (h : ℕ) × (d : Bytes) × (l ≡ h ∷ d) × (has h c.keyword ≡ false)
    go [] e = ground arith
    go (h ∷ d) e = (h, d, refl, ground arith)

pub matches_lem :
    (c : Criterion) (value : Bytes) → fits c ≡ true → matches c value ≡ starts_with (start c) value
matches_lem c value f =
    let (h, d, e, clear) = fits-cons c f in
    matches-located c value
    ∙ ap (λ l. located (find_text l value) value c.keyword) e
    ∙ located_lem h d c.keyword value clear
    ∙ ap (λ l. starts_with (c.keyword ++ l) value) (sym e)

drop-append : (xs ys : Bytes) → drop (length xs) (xs ++ ys) ≡ ys
drop-append [] ys = refl
drop-append (x ∷ xs) ys = drop-append xs ys

before_quote : (v junk : Bytes) → has b'"' v ≡ false → before_first b'"' (v ++ b'"' ∷ junk) ≡ v
unfolding before_first has
before_quote [] junk h = refl
before_quote (x ∷ v) junk h =
    let other : (x == b'"') ≡ false = ground arith in
    let clear : has b'"' v ≡ false = ground arith in rw (other, before_quote v junk clear) refl

pub argument_lem :
    (c : Criterion) (v junk : Bytes)
    → fits c ≡ true
    → has b'"' v ≡ false
    → quoted_argument c (start c ++ (v ++ b'"' ∷ junk)) ≡ some v
unfolding quoted_argument
argument_lem c v junk f clear =
    let (h, d, e, lacks) = fits-cons c f in
    let rest = v ++ b'"' ∷ junk in
    let found : find_text c.delim (start c ++ rest) ≡ some (length c.keyword) =
      ap (λ l. find_text l ((c.keyword ++ l) ++ rest)) e
      ∙ ap (find_text (h ∷ d)) (append_assoc c.keyword (h ∷ d) rest)
      ∙ find_lem h d c.keyword rest lacks (starts_with_self (h ∷ d) rest) in
    let behind : drop (length c.keyword + length c.delim) (start c ++ rest) ≡ rest =
      ap (λ n. drop n (start c ++ rest)) (sym (length-append c.keyword c.delim))
      ∙ drop-append (start c) rest in
    rw (quoted_argument, found) (rw (behind, before_quote v junk clear) refl)
