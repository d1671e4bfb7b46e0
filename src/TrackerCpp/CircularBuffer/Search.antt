-- ===== src/TrackerCpp/CircularBuffer/Search.antt =====
-- `contains` of CircularBuffer.cpp looks for a byte in the queue.
use raiezau.Base.{
  ℕ, zero, suc, ◌+◌, ◌-◌, ◌≤◌, ◌<◌, ◌≡◌, ◌≢◌, refl, sym, ap, ◌∙◌, Bool, true, false, ◌||◌, ◌==◌,
  some, List, [], ◌∷◌, ◌++◌, arith, length, get_elem?, get_elem?-of_lt, take, drop, ltb, Bool-cases,
  inl, inr, ◌⊎◌,
}
use raiezau.Base.Bytes.{Bytes}
use raiezau.TrackerCpp.CircularBuffer.{CircularBuffer, contains_loop, contains}
use raiezau.TrackerCpp.CircularBuffer.Queue.{Holds}
use raiezau.TrackerCpp.CircularBuffer.Front.{one_piece, two_pieces, take_length}

-- Whether `c` is among the bytes.
unfoldable pub has : ℕ → Bytes → Bool
has c [] = false
has c (x ∷ q) = x == c || has c q

has-append : (c : ℕ) (xs ys : Bytes) → has c (xs ++ ys) ≡ has c xs || has c ys
unfolding has
has-append c [] ys = refl
has-append c (x ∷ xs) ys = ground (arith, has-append c xs ys)

drop_cons :
    (buf : List ℕ) (i : ℕ) {x : ℕ} → get_elem? buf i ≡ some x → drop i buf ≡ x ∷ drop (suc i) buf
drop_cons [] i e = ground arith
drop_cons (y ∷ buf) zero e = cc
drop_cons (y ∷ buf) (suc i) e = drop_cons buf i e

contains_loop_lem :
    (buf : List ℕ) (c k i : ℕ)
    → i + k ≤ length buf
    → contains_loop buf c k i ≡ some (has c (take k (drop i buf)))
contains_loop_lem buf c zero i h = unfold contains_loop has in refl
contains_loop_lem buf c (suc k) i h =
    let (x, at) = get_elem?-of_lt buf i (omega arith) in
    next x at (contains_loop_lem buf c k (suc i) (omega arith))
  where
    next :
        (x : ℕ)
        → get_elem? buf i ≡ some x
        → contains_loop buf c k (suc i) ≡ some (has c (take k (drop (suc i) buf)))
        → contains_loop buf c (suc k) i ≡ some (has c (take (suc k) (drop i buf)))
    next x at later = rw (drop_cons buf i at) (elim (Bool-cases (x == c)) [
      | inl e ↦ unfold contains_loop has in rw (contains_loop, at, e, has) refl
      | inr e ↦ unfold contains_loop has in rw (contains_loop, at, e, has, later) refl
    ])

module _ {b : CircularBuffer} {q : Bytes} (h : Holds b q) (c : ℕ) where
  straight : b.r < b.w → contains_loop b.buf c (b.w - b.r) b.r ≡ some (has c q)
  straight lt =
      let fits = h.fits in
      let count = h.count in
      let edge = h.front in
      let whole : b.r + length q ≤ b.capacity = ground (arith, h.back) in
      let rounds : b.w - b.r ≡ length q = ground (arith, h.back) in
      let inside : b.r + length q ≤ length b.buf = omega (arith, h.array) in
      rw rounds (
        contains_loop_lem b.buf c (length q) b.r inside
        ∙ ap (λ t. some (has c t)) (one_piece h (length q) (omega arith) whole ∙ take_length q))

  round : b.w < b.r → b.capacity ≤ b.r + length q
  round lt = let count = h.count in ground (arith, h.back)

  module _ (lt : b.w < b.r) where
    abbrev first : Bytes
    first = take (b.capacity - b.r) (drop b.r b.buf)

    abbrev second : Bytes
    second = take b.w (drop 0 b.buf)

    joined : first ++ second ≡ q
    joined =
        let count = h.count in
        let rounds : length q - (b.capacity - b.r) ≡ b.w = ground (arith, h.back, h.front) in
        ap (λ k. first ++ take k (drop 0 b.buf)) (sym rounds)
        ∙ two_pieces h (length q) (omega arith) (round lt)
        ∙ take_length q

    front_loop : contains_loop b.buf c (b.capacity - b.r) b.r ≡ some (has c first)
    front_loop = contains_loop_lem b.buf c (b.capacity - b.r) b.r (omega (arith, h.array, h.front))

    back_loop : contains_loop b.buf c b.w 0 ≡ some (has c second)
    back_loop = contains_loop_lem b.buf c b.w 0 (omega (arith, h.array, h.front))

    has-joined : has c q ≡ has c first || has c second
    has-joined = ap (has c) (sym joined) ∙ has-append c first second

  contains_straight : ltb b.r b.w ≡ true → contains c b ≡ some (has c q)
  contains_straight e = unfold contains in rw (contains, e) (straight (ground arith))

  contains_round : ltb b.r b.w ≡ false → ltb b.w b.r ≡ true → contains c b ≡ some (has c q)
  contains_round e f =
      let lt : b.w < b.r = ground arith in
      elim (Bool-cases (has c (first lt))) [
        | inl found ↦
            unfold contains in rw (contains, e, f, front_loop lt, found, has-joined lt, found) refl
        | inr missing ↦
            unfold contains in
            rw (contains, e, f, front_loop lt, missing, has-joined lt, missing) (back_loop lt)
      ]

  contains_empty :
      ltb b.r b.w ≡ false → ltb b.w b.r ≡ false → q ≡ [] → contains c b ≡ some (has c q)
  contains_empty e f empty = unfold contains in rw (contains, e, f, empty) (unfold has in refl)

  empty_of_length : (t : Bytes) → length t ≡ 0 → t ≡ []
  empty_of_length [] e = refl
  empty_of_length (x ∷ t) e = absurd (omega arith)

-- On a buffer that holds a queue, `contains` says whether the byte is in the queue, unless the
-- buffer is full and its front is not at the start of the array.
pub contains_lem :
    {b : CircularBuffer} {q : Bytes}
    → Holds b q
    → (c : ℕ) → (length q < b.capacity) ⊎ (b.r ≡ 0)
    → contains c b ≡ some (has c q)
contains_lem {b} {q} h c room = elim (Bool-cases (ltb b.r b.w)) [
  | inl e ↦ contains_straight h c e
  | inr e ↦ elim (Bool-cases (ltb b.w b.r)) [
    | inl f ↦ contains_round h c e f
    | inr f ↦
        let count = h.count in
        let none_left : length q ≡ 0 = ground (arith, h.back, room) in
        contains_empty h c e f (empty_of_length h c q none_left)
  ]
]

-- On a buffer that holds a queue as long as its capacity, and whose front is not at the start of the
-- array, `contains` says of every byte that it is not there.
contains_full :
    {b : CircularBuffer} {q : Bytes}
    → Holds b q
    → (c : ℕ) → length q ≡ b.capacity
    → b.r ≢ 0
    → contains c b ≡ some false
contains_full {b} {q} h c full start =
    let count = h.count in
    let edge : b.w ≡ b.r = ground (arith, h.back) in
    let no : ltb b.r b.r ≡ false = ground arith in unfold contains in rw (contains, edge, no) refl
