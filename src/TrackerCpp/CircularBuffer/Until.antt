-- ===== src/TrackerCpp/CircularBuffer/Until.antt =====
-- `readUntil` of CircularBuffer.cpp on a queue that lies in one piece.
use raiezau.Base.{
  ℕ, zero, suc, ◌+◌, ◌-◌, ◌≤◌, ◌<◌, ◌^◌, ◌≡◌, refl, sym, ap, ◌∙◌, true, false, ◌==◌, inl, inr,
  Option, some, List, [], ◌∷◌, ◌++◌, arith, append_assoc, append-nil, length, get_elem?, ltb,
  length-append, Bool-cases,
}
use raiezau.Base.Bytes.{Bytes}
use raiezau.TrackerCpp.CircularBuffer.{
  CircularBuffer, sub_size, add_size, until_loop, until_end, read_until, contains,
}
use raiezau.TrackerCpp.CircularBuffer.Queue.{Holds, place}
use raiezau.TrackerCpp.CircularBuffer.Search.{has, contains_lem}

-- The buffer holds the bytes, which lie in one piece.
pub record Straight (b : CircularBuffer) (q : Bytes) : Type 0 where
  pub holds : Holds b q
  pub whole : b.r + length q ≤ b.capacity

-- The buffer behind a line and its newline.
abbrev pub behind : CircularBuffer → Bytes → CircularBuffer
behind b line = record b { r = b.r + length line + 1; size = b.size - (length line + 1) }

pub Straight-contains :
    {b : CircularBuffer} {q : Bytes} → Straight b q → (c : ℕ) → contains c b ≡ some (has c q)
Straight-contains {b} {q} h c = contains_lem h.holds c (elim (Bool-cases (b.r == 0)) [
  | inl e ↦ inr (ground arith)
  | inr e ↦ inl (ground (arith, h.whole))
])

triple :
    {s t : Bytes} {r p n m : ℕ}
    → s ≡ t
    → r ≡ p
    → n ≡ m
    → ◌≡◌ {A = Option (Bytes × ℕ × ℕ)} (some (s, r, n)) (some (t, p, m))
triple a b c = rw (a, b, c) refl

until_loop_lem :
    (buf : List ℕ) (c k : ℕ) (line rest : Bytes) (r size : ℕ) (s : Bytes)
    → has c line ≡ false
    → ((i : ℕ)
        → i < length (line ++ c ∷ rest)
        → get_elem? buf (r + i) ≡ get_elem? (line ++ c ∷ rest) i)
    → length line < k
    → length line ≤ size
    → size < 2 ^ 63
    → until_loop buf c k r size s ≡ some (s ++ line, r + length line, size - length line)
unfolding until_loop has
until_loop_lem buf c zero line rest r size s missing h lt le small = absurd (omega arith)
until_loop_lem buf c (suc k) [] rest r size s missing h lt le small =
    let zero_off : r + 0 ≡ r = omega arith in
    let at : get_elem? buf r ≡ some c = ap (get_elem? buf) (sym zero_off) ∙ h 0 (omega arith) in
    let here : (c == c) ≡ true = ground arith in
    rw (until_loop, at, here) (triple (sym (append-nil s)) (sym zero_off) (omega arith))
until_loop_lem buf c (suc k) (x ∷ line) rest r size s missing h lt le small =
    let zero_off : r + 0 ≡ r = omega arith in
    let at : get_elem? buf r ≡ some x = ap (get_elem? buf) (sym zero_off) ∙ h 0 (omega arith) in
    let other : (x == c) ≡ false = ground arith in
    let less : sub_size size 1 ≡ size - 1 = omega arith in
    rw (until_loop, at, other)
      (rw less (
        until_loop_lem buf c k line rest (suc r) (size - 1) (s ++ x ∷ []) (ground arith)
          (λ i l.
            let next : suc r + i ≡ r + suc i = omega arith in
            ap (get_elem? buf) next ∙ h (suc i) (omega arith))
          (omega arith) (omega arith) (omega arith)
        ∙ triple (append_assoc s (x ∷ []) line) (omega arith) (omega arith)))

has_middle : (c : ℕ) (line rest : Bytes) → has c (line ++ c ∷ rest) ≡ true
unfolding has
has_middle c [] rest = ground arith
has_middle c (x ∷ line) rest = ground (arith, has_middle c line rest)

get_elem?-behind :
    (c : ℕ) (line rest : Bytes) (i : ℕ)
    → get_elem? (line ++ c ∷ rest) (suc (length line + i)) ≡ get_elem? rest i
get_elem?-behind c [] rest i = let e : 0 + i ≡ i = omega arith in ap (get_elem? rest) e
get_elem?-behind c (x ∷ line) rest i =
    let e : suc (length line) + i ≡ suc (length line + i) = omega arith in
    ap (get_elem? (line ++ c ∷ rest)) e ∙ get_elem?-behind c line rest i

module _ (b : CircularBuffer) (c : ℕ) (line rest : Bytes) (h : Straight b (line ++ c ∷ rest))
    (clear : has c line ≡ false) where
  abbrev q : Bytes
  q = line ++ c ∷ rest

  length-q : length q ≡ length line + 1 + length rest
  length-q = omega (arith, length-append line (c ∷ rest))

  back : b.w ≡ b.r + length q
  back = ground (arith, h.holds.back, h.holds.count, h.whole)

  placed : (i : ℕ) → i < length q → get_elem? b.buf (b.r + i) ≡ get_elem? q i
  placed i lt =
      let here : place b i ≡ b.r + i = ground (arith, h.whole) in
      ap (get_elem? b.buf) (sym here) ∙ h.holds.stored i lt

  pub contains_line : contains c b ≡ some true
  contains_line = Straight-contains h c ∙ ap some (has_middle c line rest)

  pub behind-Straight : Straight (behind b line) rest
  behind-Straight = record {
    holds = record {
      array = h.holds.array;
      small = h.holds.small;
      front = omega (arith, h.whole, length-q);
      count = omega (arith, h.holds.count, length-q);
      fits = omega (arith, h.holds.fits);
      back = ground (arith, back, length-q, h.holds.count, h.whole);
      stored = λ i lt.
          let here : place (behind b line) i ≡ b.r + suc (length line + i) =
            ground (arith, h.whole, length-q) in
          ap (get_elem? b.buf) here
          ∙ placed (suc (length line + i)) (omega (arith, length-q))
          ∙ get_elem?-behind c line rest i;
    };
    whole = omega (arith, h.whole, length-q);
  }

  -- On a buffer whose queue lies in one piece and has the byte, `readUntil` gives the bytes before the
  -- first one, and leaves those behind it.
  pub read_until_lem : read_until c b ≡ some (line, behind b line)
  unfolding read_until until_end
  read_until_lem =
      let test : ltb b.w b.r ≡ false = ground (arith, back) in
      let rounds : length line < b.w - b.r = omega (arith, back, length-q) in
      let le : length line ≤ b.size = omega (arith, h.holds.count, length-q) in
      let small : b.size < 2 ^ 63 = omega (arith, h.holds.fits, h.holds.small) in
      let loop =
        until_loop_lem b.buf c (b.w - b.r) line rest b.r b.size [] clear placed rounds le small in
      let more : ltb 0 (b.size - length line) ≡ true = ground (arith, h.holds.count, length-q) in
      let r' : add_size (b.r + length line) 1 ≡ b.r + length line + 1 =
        omega (arith, h.whole, length-q, h.holds.small) in
      let size' : sub_size (b.size - length line) 1 ≡ b.size - (length line + 1) =
        omega (arith, h.holds.count, length-q, small) in
      rw (read_until, test) (rw (until_end, loop, more) (rw (r', size') refl))
