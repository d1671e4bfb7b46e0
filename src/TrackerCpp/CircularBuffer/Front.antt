-- ===== src/TrackerCpp/CircularBuffer/Front.antt =====
-- `read`, `peek` and `resize` of CircularBuffer.cpp take the bytes at the front of the queue.
use raiezau.Base.{
  ℕ, ◌+◌, ◌-◌, ◌^◌, ◌≤◌, ◌<◌, ◌≡◌, refl, sym, ap, ◌∙◌, true, false, Option, none, some, List, [],
  ◌∷◌, ◌++◌, arith, length, get_elem?, take, drop, ltb, leb, if◌then◌else◌, Bool-cases, inl, inr,
  length-append,
}
use raiezau.Base.Bytes.{Bytes}
use raiezau.Base.Index.{
  get_elem?-append, get_elem?-take, get_elem?-drop, length-take, length-drop, eq_of_elements,
}
use raiezau.TrackerCpp.CircularBuffer.{
  CircularBuffer, add_size, sub_size, splice, copy_in, copy_out, get, read, peek, resize,
}
use raiezau.TrackerCpp.CircularBuffer.Queue.{Holds, place}
use raiezau.TrackerCpp.CircularBuffer.Splice.{
  copy_in_fits, length-splice, get_elem?-splice, copy_out_fits, length-copied, get_elem?-copied,
}

pub take_length : (q : Bytes) → take (length q) q ≡ q
take_length [] = refl
take_length (x ∷ q) = ap (λ t. x ∷ t) (take_length q)

sub-zero : (i : ℕ) → i - 0 ≡ i
sub-zero i = omega arith

module _ {b : CircularBuffer} {q : Bytes} (h : Holds b q) (n : ℕ) (le : n ≤ length q) where
  taken : (i : ℕ) → i < n → get_elem? (take n q) i ≡ get_elem? q i
  taken i lt = let e : ltb i n ≡ true = ground arith in get_elem?-take n q i ∙ rw e refl

  pub one_piece : b.r + n ≤ b.capacity → take n (drop b.r b.buf) ≡ take n q
  one_piece fits =
      let inside : b.r + n ≤ length b.buf = omega (arith, h.array) in
      let size = length-copied b.buf b.r n inside in
      eq_of_elements (take n (drop b.r b.buf)) (take n q) (size ∙ sym (length-take n q le)) (λ i lt.
        let below : i < n = omega arith in
        let at : place b i ≡ b.r + i = ground arith in
        get_elem?-copied b.buf b.r n inside i below
        ∙ ap (get_elem? b.buf) (sym at)
        ∙ h.stored i (omega arith)
        ∙ sym (taken i below))

  get_whole : b.r + n ≤ b.capacity → get true n b ≡ some (take n q)
  get_whole fits =
      unfold get in (copy_out_fits b.buf b.r n (omega (arith, h.array)) ∙ ap some (one_piece fits))

  module _ (round : b.capacity ≤ b.r + n) where
    abbrev pub cut : ℕ
    cut = b.capacity - b.r

    inside₁ : b.r + cut ≤ length b.buf
    inside₁ = omega (arith, h.array, h.front)

    inside₂ : 0 + (n - cut) ≤ length b.buf
    inside₂ = omega (arith, h.array, h.front, h.count, h.fits)

    abbrev pub front : List ℕ
    front = take cut (drop b.r b.buf)

    abbrev pub back : List ℕ
    back = take (n - cut) (drop 0 b.buf)

    joined : (i : ℕ) → i < n → get_elem? (front ++ back) i ≡ get_elem? q i
    joined i lt =
        let size = length-copied b.buf b.r cut inside₁ in
        let edge = h.front in
        get_elem?-append front back i
        ∙ rw size (elim (Bool-cases (ltb i cut)) [
          | inl e ↦
              let at : place b i ≡ b.r + i = ground arith in
              rw e (
                get_elem?-copied b.buf b.r cut inside₁ i (ground arith)
                ∙ ap (get_elem? b.buf) (sym at)
                ∙ h.stored i (omega arith))
          | inr e ↦
              let at : place b i ≡ 0 + (i - cut) = ground arith in
              rw e (
                get_elem?-copied b.buf 0 (n - cut) inside₂ (i - cut) (ground arith)
                ∙ ap (get_elem? b.buf) (sym at)
                ∙ h.stored i (omega arith))
        ])

    pub two_pieces : front ++ back ≡ take n q
    two_pieces =
        let size₁ = length-copied b.buf b.r cut inside₁ in
        let size₂ = length-copied b.buf 0 (n - cut) inside₂ in
        let size = length-append front back in
        eq_of_elements (front ++ back) (take n q)
          (omega (arith, length-take n q le, h.count, h.fits))
          (λ i lt.
            let below : i < n = omega (arith, h.count, h.fits) in
            joined i below ∙ sym (taken i below))

    get_split : get false n b ≡ some (take n q)
    get_split =
        let edge = h.front in
        let small = h.small in
        let cut₁ : sub_size b.capacity b.r ≡ cut = omega arith in
        let cut₂ : sub_size n cut ≡ n - cut = omega (arith, h.count, h.fits) in
        let finish : Option (List ℕ) → Option Bytes =
          λ o. elim o [ none ↦ none | some back ↦ some (front ++ back) ] in
        let step : get false n b ≡ finish (copy_out b.buf 0 (n - cut)) =
          unfold get in
          rw (get, cut₁, copy_out_fits b.buf b.r cut inside₁) (rw (cut₁, cut₂) refl) in
        step ∙ ap finish (copy_out_fits b.buf 0 (n - cut) inside₂) ∙ ap some two_pieces

  -- where `read` goes on
  abbrev pub next : ℕ
  next = if leb (b.r + n) b.capacity then b.r + n else b.r + n - b.capacity

  abbrev pub rest : CircularBuffer
  rest = record b { r = next; size = b.size - n }

  pub rest-Holds : Holds rest (drop n q)
  rest-Holds =
      let count = h.count in
      let fits = h.fits in
      let edge = h.front in
      let size = length-drop n q in
      record {
        array = h.array;
        small = h.small;
        front = ground arith;
        count = omega arith;
        fits = omega arith;
        back = ground (arith, h.back);
        stored = λ i lt.
            let at : place rest i ≡ place b (n + i) = ground arith in
            ap (get_elem? b.buf) at ∙ h.stored (n + i) (omega arith) ∙ sym (get_elem?-drop n q i);
      }

  read_front : read n b ≡ some (take n q, rest)
  read_front =
      let count = h.count in
      let small = h.small in
      let edge = h.front in
      let fits = h.fits in
      let enough : leb n b.size ≡ true = ground arith in
      let sum : add_size b.r n ≡ b.r + n = omega arith in
      let left : sub_size b.size n ≡ b.size - n = omega arith in
      let after : ℕ → Option (Bytes × CircularBuffer) =
        λ r. some (take n q, record b { r = r; size = b.size - n }) in
      elim (Bool-cases (leb (b.r + n) b.capacity)) [
        | inl e ↦
            unfold read in
            rw (read, sum, e, enough, get_whole (ground arith), left) (ap after (ground arith))
        | inr e ↦
            unfold read in
            rw (read, sum, e, enough, get_split (ground arith), left) (ap after (ground arith))
      ]

-- On a buffer that holds a queue of at least `n` bytes, `read` returns the first `n` of them and
-- leaves the others in the queue; the capacity stays.
pub read-Holds :
    {b : CircularBuffer} {q : Bytes}
    → Holds b q
    → (n : ℕ) → n ≤ length q
    → (b' : CircularBuffer) × (read n b ≡ some (take n q, b'))
      × Holds b' (drop n q)
      × (b'.capacity ≡ b.capacity)
read-Holds h n le = (rest h n le, read_front h n le, rest-Holds h n le, refl)

-- `peek` returns the first `n` bytes of the queue, or all of them if there are fewer.
pub peek_lem :
    {b : CircularBuffer} {q : Bytes}
    → Holds b q
    → (n : ℕ) → peek n b ≡ some (take (if leb n (length q) then n else length q) q)
peek_lem {b} {q} h n =
    let m = if leb n (length q) then n else length q in
    let le : m ≤ length q = ground arith in
    let size : (if leb n b.size then n else b.size) ≡ m = rw h.count refl in
    let sum : add_size b.r m ≡ b.r + m = omega (arith, h.front, h.small, h.count, h.fits) in
    let answer : ℕ → Option Bytes = λ m. get (ltb (add_size b.r m) b.capacity) m b in
    let step : peek n b ≡ answer (if leb n b.size then n else b.size) = unfold peek in refl in
    step
    ∙ ap answer size
    ∙ rw sum (elim (Bool-cases (ltb (b.r + m) b.capacity)) [
      | inl e ↦ rw e (get_whole h m le (ground arith))
      | inr e ↦ rw e (get_split h m le (ground arith))
    ])

-- On a buffer that holds a queue, `resize` to a capacity above the old one and below 2 ^ 63, with a
-- new array of that size, succeeds and keeps the queue.
pub resize-Holds :
    {b : CircularBuffer} {q : Bytes}
    → Holds b q
    → (new_cap : ℕ) (memory : List ℕ) → length memory ≡ new_cap
    → b.capacity < new_cap
    → new_cap < 2 ^ 63
    → (b' : CircularBuffer) × (resize new_cap memory b ≡ some b')
      × Holds b' q
      × (b'.capacity ≡ new_cap)
resize-Holds {b} {q} h new_cap memory len lt small =
    let fits = h.fits in
    let count = h.count in
    let all : (if ltb b.size new_cap then b.size else new_cap) ≡ length q = ground arith in
    let inside : 0 + length q ≤ length memory = omega arith in
    let whole : read (length q) b ≡ some (q, rest h (length q) (omega arith)) =
      read_front h (length q) (omega arith)
      ∙ ap (λ t. some (t, rest h (length q) (omega arith))) (take_length q) in
    let finish : Option (Bytes × CircularBuffer) → Option CircularBuffer = λ o. elim o [
      | none ↦ none
      | some (bytes, _) ↦ elim (copy_in memory 0 bytes) [
        | none ↦ none
        | some buf ↦
            some (record { capacity = new_cap; size = b.size; r = 0; w = b.size; buf = buf })
      ]
    ] in
    let step : resize new_cap memory b ≡ finish (read (length q) b) =
      unfold resize in ap (λ n. finish (read n b)) all in
    (
      record { capacity = new_cap; size = b.size; r = 0; w = b.size; buf = splice memory 0 q },
      step ∙ ap finish whole ∙ rw (copy_in_fits memory 0 q inside) refl,
      record {
        array = length-splice memory 0 q inside ∙ len;
        small = small;
        front = omega arith;
        count = count;
        fits = omega arith;
        back = ground arith;
        stored = λ i below.
            let at : (if ltb (0 + i) new_cap then 0 + i else 0 + i - new_cap) ≡ i = ground arith in
            rw at (
              get_elem?-splice memory 0 q inside i ∙ ground (arith, ap (get_elem? q) (sub-zero i)));
      },
      refl,
    )
