-- ===== src/TrackerCpp/CircularBuffer/Calls.antt =====
-- What a client sees of a sequence of calls of CircularBuffer.cpp.
use raiezau.Base.{
  ℕ, ◌+◌, ◌-◌, ◌<◌, ◌≡◌, refl, sym, ap, ◌∙◌, true, false, Option, none, some, List, [], ◌∷◌, ◌++◌,
  arith, length, take, drop, leb, if◌then◌else◌, Bool-cases, inl, inr,
}
use raiezau.Base.Bytes.{Bytes}
use raiezau.TrackerCpp.CircularBuffer.{CircularBuffer, remaining_space, write, read, peek}
use raiezau.TrackerCpp.CircularBuffer.Queue.{Holds, write-Holds}
use raiezau.TrackerCpp.CircularBuffer.Front.{read-Holds, peek_lem}

pub data Call : Type 0 where
  writing : Bytes → Call
  reading : ℕ → Call
  peeking : ℕ → Call

-- The texts that the calls return, in their order; `none` if one of them aborts.
unfoldable pub run : List Call → CircularBuffer → Option (List Bytes)
run [] b = some []
run (writing xs ∷ calls) b = elim (write xs b) [ none ↦ none | some b ↦ run calls b ]
run (reading n ∷ calls) b = elim (read n b) [
  | none ↦ none
  | some (xs, b) ↦ elim (run calls b) [ none ↦ none | some out ↦ some (xs ∷ out) ]
]
run (peeking n ∷ calls) b = elim (peek n b) [
  | none ↦ none
  | some xs ↦ elim (run calls b) [ none ↦ none | some out ↦ some (xs ∷ out) ]
]

-- The same calls of a queue of at most `cap` bytes, the oldest first.
unfoldable pub run_queue : ℕ → List Call → Bytes → Option (List Bytes)
run_queue cap [] q = some []
run_queue cap (writing xs ∷ calls) q = elim (leb (length q + length xs) cap) [
  | true ↦ run_queue cap calls (q ++ xs)
  | false ↦ none
]
run_queue cap (reading n ∷ calls) q = elim (leb n (length q)) [
  | true ↦ elim (run_queue cap calls (drop n q)) [ none ↦ none | some out ↦ some (take n q ∷ out) ]
  | false ↦ none
]
run_queue cap (peeking n ∷ calls) q =
    let xs = take (if leb n (length q) then n else length q) q in
    elim (run_queue cap calls q) [ none ↦ none | some out ↦ some (xs ∷ out) ]

module _ {b : CircularBuffer} {q : Bytes} (h : Holds b q) where
  write_full : (xs : Bytes) → b.capacity < length q + length xs → write xs b ≡ none
  write_full xs lt =
      let fits = h.fits in
      let count = h.count in
      let small = h.small in
      let left : remaining_space b ≡ b.capacity - b.size = unfold remaining_space in omega arith in
      let test : leb (length xs) (remaining_space b) ≡ false = ground arith in
      unfold write in rw (write, test) refl

  read_short : (n : ℕ) → length q < n → read n b ≡ none
  read_short n lt =
      let count = h.count in
      let test : leb n b.size ≡ false = ground arith in unfold read in rw (read, test) refl

-- what the call adds to the texts
prepend : Bytes → Option (List Bytes) → Option (List Bytes)
prepend xs o = elim o [ none ↦ none | some out ↦ some (xs ∷ out) ]

module _ (calls : List Call) (b : CircularBuffer) (cap : ℕ) (q : Bytes) where
  run-writing :
      (xs : Bytes) {b' : CircularBuffer}
      → write xs b ≡ some b'
      → run (writing xs ∷ calls) b ≡ run calls b'
  run-writing xs e = unfold run in rw (run, e) refl

  run_aborts : (xs : Bytes) → write xs b ≡ none → run (writing xs ∷ calls) b ≡ none
  run_aborts xs e = unfold run in rw (run, e) refl

  run-reading :
      (n : ℕ) {xs : Bytes} {b' : CircularBuffer}
      → read n b ≡ some (xs, b')
      → run (reading n ∷ calls) b ≡ prepend xs (run calls b')
  run-reading n e = unfold run prepend in rw (run, e) refl

  run_short : (n : ℕ) → read n b ≡ none → run (reading n ∷ calls) b ≡ none
  run_short n e = unfold run in rw (run, e) refl

  run-peeking :
      (n : ℕ) {xs : Bytes}
      → peek n b ≡ some xs
      → run (peeking n ∷ calls) b ≡ prepend xs (run calls b)
  run-peeking n e = unfold run prepend in rw (run, e) refl

  queue-writing :
      (xs : Bytes)
      → run_queue cap (writing xs ∷ calls) q
        ≡ (if leb (length q + length xs) cap then run_queue cap calls (q ++ xs) else none)
  queue-writing xs = elim (Bool-cases (leb (length q + length xs) cap)) [
    | inl e ↦ unfold run_queue in rw (e, run_queue) refl
    | inr e ↦ unfold run_queue in rw (e, run_queue) refl
  ]

  queue-reading :
      (n : ℕ)
      → run_queue cap (reading n ∷ calls) q
        ≡ (if leb n (length q) then prepend (take n q) (run_queue cap calls (drop n q)) else none)
  queue-reading n = elim (Bool-cases (leb n (length q))) [
    | inl e ↦ unfold run_queue prepend in rw (e, run_queue) refl
    | inr e ↦ unfold run_queue prepend in rw (e, run_queue) refl
  ]

  queue-peeking :
      (n : ℕ)
      → run_queue cap (peeking n ∷ calls) q
        ≡ prepend (take (if leb n (length q) then n else length q) q) (run_queue cap calls q)
  queue-peeking n = unfold run_queue prepend in refl

-- No sequence of calls of `write`, `read` and `peek` tells a buffer from the queue that it holds: the
-- calls return the same texts, and abort where a write would exceed the capacity or a read asks for
-- more than the queue has.
pub run-Holds :
    (calls : List Call) {b : CircularBuffer} {q : Bytes}
    → Holds b q
    → run calls b ≡ run_queue b.capacity calls q
run-Holds [] h = unfold run run_queue in refl
run-Holds (writing xs ∷ calls) {b} {q} h =
    rw (queue-writing calls b b.capacity q xs)
      (elim (Bool-cases (leb (length q + length xs) b.capacity)) [
        | inl e ↦
            let (b', wrote, h', cap) = write-Holds h xs (ground arith) in
            rw e (
              run-writing calls b b.capacity q xs wrote
              ∙ run-Holds calls h'
              ∙ ap (λ c. run_queue c calls (q ++ xs)) cap)
        | inr e ↦ rw e (run_aborts calls b b.capacity q xs (write_full h xs (ground arith)))
      ])
run-Holds (reading n ∷ calls) {b} {q} h =
    rw (queue-reading calls b b.capacity q n) (elim (Bool-cases (leb n (length q))) [
      | inl e ↦
          let (b', got, h', cap) = read-Holds h n (ground arith) in
          rw e (
            run-reading calls b b.capacity q n got
            ∙ ap (prepend (take n q)) (run-Holds calls h')
            ∙ ap (λ c. prepend (take n q) (run_queue c calls (drop n q))) cap)
      | inr e ↦ rw e (run_short calls b b.capacity q n (read_short h n (ground arith)))
    ])
run-Holds (peeking n ∷ calls) {b} {q} h =
    run-peeking calls b b.capacity q n (peek_lem h n)
    ∙ ap (prepend (take (if leb n (length q) then n else length q) q)) (run-Holds calls h)
    ∙ sym (queue-peeking calls b b.capacity q n)
