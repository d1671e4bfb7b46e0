-- ===== src/TrackerCpp/CircularBuffer/Queue.antt =====
-- The buffer holds a queue of bytes: `write` adds at its end, and `read` takes from its front.
use raiezau.Base.{
  ℕ, ◌+◌, ◌-◌, ◌%◌, ◌^◌, ◌≤◌, ◌<◌, ◌≡◌, refl, ap, ◌∙◌, true, false, Option, none, some, List, ◌++◌,
  arith, length, get_elem?, take, drop, ltb, leb, if◌then◌else◌, Bool-cases, inl, inr,
  length-append,
}
use raiezau.Base.Bytes.{Bytes}
use raiezau.Base.Index.{get_elem?-append, get_elem?-take, get_elem?-drop, length-take, length-drop}
use raiezau.TrackerCpp.CircularBuffer.{
  CircularBuffer, sub_size, splice, copy_in, remaining_space, put, write,
}
use raiezau.TrackerCpp.CircularBuffer.Splice.{copy_in_fits, length-splice, get_elem?-splice}

-- The index of the byte that is `i` bytes behind the front.
abbrev pub place : CircularBuffer → ℕ → ℕ
place b i = if ltb (b.r + i) b.capacity then b.r + i else b.r + i - b.capacity

-- The buffer holds the bytes `q`, the oldest first.
pub record Holds (b : CircularBuffer) (q : Bytes) : Type 0 where
  pub array : length b.buf ≡ b.capacity
  pub small : b.capacity < 2 ^ 63
  pub front : b.r ≤ b.capacity
  pub count : b.size ≡ length q
  pub fits : b.size ≤ b.capacity
  pub back :
      b.w ≡ (if leb (b.r + b.size) b.capacity then b.r + b.size else b.r + b.size - b.capacity)
  pub stored : (i : ℕ) → i < length q → get_elem? b.buf (place b i) ≡ get_elem? q i

module _ {b : CircularBuffer} {q : Bytes} (h : Holds b q) where
  remaining_space_lem : remaining_space b ≡ b.capacity - length q
  unfolding remaining_space
  remaining_space_lem = omega (arith, h.small, h.count, h.fits)

  w_le : b.w ≤ b.capacity
  w_le = ground (arith, h.front, h.fits, h.back)

  module _ (xs : Bytes) (room : length q + length xs ≤ b.capacity) where
    whole_stored :
        b.w + length xs ≤ b.capacity
        → (i : ℕ) → i < length (q ++ xs)
        → get_elem? (splice b.buf b.w xs) (place b i) ≡ get_elem? (q ++ xs) i
    whole_stored le i lt =
        let inside : b.w + length xs ≤ length b.buf = omega (arith, h.array) in
        let size = length-append q xs in
        rw (get_elem?-splice b.buf b.w xs inside (place b i), get_elem?-append q xs i)
          (elim (Bool-cases (ltb i (length q))) [
            | inl e ↦
                let old = h.stored i (ground arith) in
                ground (arith, h.back, h.count, h.fits, h.front)
            | inr e ↦
                let new : place b i ≡ b.w + (i - length q) =
                  ground (arith, h.back, h.count, h.fits, h.front) in
                let below : ltb (place b i) b.w ≡ false = ground arith in
                let above : ltb (place b i) (b.w + length xs) ≡ true = ground arith in
                let same : place b i - b.w ≡ i - length q = omega arith in
                rw (e, below, above, same) refl
          ])

    -- the new bytes in one piece
    put_whole :
        b.w + length xs ≤ b.capacity
        → (b' : CircularBuffer) × (put xs b ≡ some b')
          × Holds b' (q ++ xs)
          × (b'.capacity ≡ b.capacity)
    put_whole le =
        let test : leb ((b.w + length xs) % 2 ^ 64) b.capacity ≡ true = ground (arith, h.small) in
        let inside : b.w + length xs ≤ length b.buf = omega (arith, h.array) in
        (
          record b {
            buf = splice b.buf b.w xs;
            w = (b.w + length xs) % 2 ^ 64;
            size = (b.size + length xs) % 2 ^ 64;
          },
          unfold put in rw (put, test, copy_in_fits b.buf b.w xs inside) refl,
          record {
            array = length-splice b.buf b.w xs inside ∙ h.array;
            small = h.small;
            front = h.front;
            count = omega (arith, h.small, h.count, length-append q xs);
            fits = omega (arith, h.small, h.count, h.fits);
            back = ground (arith, h.small, h.count, h.fits, h.front, h.back);
            stored = whole_stored le;
          },
          refl,
        )

    -- the new bytes in two pieces
    module _ (gt : b.capacity < b.w + length xs) where
      abbrev cut : ℕ
      cut = b.capacity - b.w

      abbrev first : List ℕ
      first = splice b.buf b.w (take cut xs)

      abbrev second : List ℕ
      second = splice first 0 (drop cut xs)

      straight : b.w ≡ b.r + b.size
      straight = ground (arith, h.back, h.count, h.fits)

      length-front : length (take cut xs) ≡ cut
      length-front = length-take cut xs (omega (arith, h.fits, straight))

      length-rest : length (drop cut xs) ≡ length xs - cut
      length-rest = length-drop cut xs

      inside₁ : b.w + length (take cut xs) ≤ length b.buf
      inside₁ = ground (arith, h.array, h.back, h.front, h.fits, length-front)

      length-first : length first ≡ b.capacity
      length-first = length-splice b.buf b.w (take cut xs) inside₁ ∙ h.array

      inside₂ : 0 + length (drop cut xs) ≤ length first
      inside₂ = omega (arith, length-first, length-rest)

      split_stored :
          (i : ℕ) → i < length (q ++ xs) → get_elem? second (place b i) ≡ get_elem? (q ++ xs) i
      split_stored i lt =
          let size = length-append q xs in
          let fits = h.fits in
          let count = h.count in
          let front = h.front in
          let w = straight in
          rw
            (
              get_elem?-splice first 0 (drop cut xs) inside₂ (place b i),
              get_elem?-splice b.buf b.w (take cut xs) inside₁ (place b i),
              length-front,
              length-rest,
              get_elem?-append q xs i,
            )
            (elim (Bool-cases (ltb i (length q))) [
              | inl e ↦ let old = h.stored i (ground arith) in ground arith
              | inr e ↦ elim (Bool-cases (ltb (b.r + i) b.capacity)) [
                | inl f ↦
                    let p : place b i ≡ b.w + (i - length q) = ground arith in
                    let k : b.w + (i - length q) - b.w ≡ i - length q = omega arith in
                    let copied = ap (get_elem? (take cut xs)) k in
                    rw p (ground (arith, copied, get_elem?-take cut xs (i - length q)))
                | inr f ↦
                    let p : place b i ≡ i - length q - cut = ground arith in
                    let k : i - length q - cut - 0 ≡ i - length q - cut = omega arith in
                    let j : cut + (i - length q - cut) ≡ i - length q = ground arith in
                    let copied = ap (get_elem? (drop cut xs)) k in
                    let found = ap (get_elem? xs) j in
                    rw p (ground (arith, copied, found, get_elem?-drop cut xs (i - length q - cut)))
              ]
            ])

      put_split :
          (b' : CircularBuffer) × (put xs b ≡ some b')
          × Holds b' (q ++ xs)
          × (b'.capacity ≡ b.capacity)
      put_split =
          let small = h.small in
          let test : leb ((b.w + length xs) % 2 ^ 64) b.capacity ≡ false =
            ground (arith, h.front, h.fits, straight) in
          let back : (b.capacity + 2 ^ 64 - b.w) % 2 ^ 64 ≡ cut = omega (arith, w_le, small) in
          let finish : Option (List ℕ) → Option CircularBuffer = λ o. elim o [
            | none ↦ none
            | some buf ↦ some (record b {
              buf = buf;
              w = sub_size (length xs) (sub_size b.capacity b.w);
              size = (b.size + length xs) % 2 ^ 64;
            })
          ] in
          let step : put xs b ≡ finish (copy_in first 0 (drop cut xs)) =
            unfold put in
            rw (put, test, back, copy_in_fits b.buf b.w (take cut xs) inside₁) (rw back refl) in
          (
            record b {
              buf = second;
              w = sub_size (length xs) (sub_size b.capacity b.w);
              size = (b.size + length xs) % 2 ^ 64;
            },
            step ∙ ap finish (copy_in_fits first 0 (drop cut xs) inside₂),
            record {
              array = length-splice first 0 (drop cut xs) inside₂ ∙ length-first;
              small = small;
              front = h.front;
              count = omega (arith, h.count, length-append q xs);
              fits = omega (arith, h.count, h.fits);
              back = ground (arith, h.count, h.fits, h.front, straight);
              stored = split_stored;
            },
            refl,
          )

-- On a buffer that holds a queue with room for the new bytes, `write` adds them at the queue's end
-- and keeps the capacity, whether or not they go round the end of the array.
pub write-Holds :
    {b : CircularBuffer} {q : Bytes}
    → Holds b q
    → (xs : Bytes) → length q + length xs ≤ b.capacity
    → (b' : CircularBuffer) × (write xs b ≡ some b')
      × Holds b' (q ++ xs)
      × (b'.capacity ≡ b.capacity)
unfolding write
write-Holds {b} {q} h xs room =
    let test : leb (length xs) (remaining_space b) ≡ true =
      ground (arith, remaining_space_lem h, h.fits, h.count) in
    rw test (elim (Bool-cases (leb (b.w + length xs) b.capacity)) [
      | inl e ↦ put_whole h xs room (ground arith)
      | inr e ↦ put_split h xs room (ground arith)
    ])
