-- ===== src/Tracker/Network/Round.antt =====
-- One round of `clean_fds`: what its `while` loop does at a slot.
use raiezau.Base.{
  ℕ, zero, suc, ◌+◌, ◌-◌, ◌≤◌, ◌<◌, ◌≡◌, ◌≢◌, refl, ap, ◌∙◌, Bool, true, false, not, ◌&&◌, none,
  some, List, ◌==◌, arith, length, get_elem?, set, Bool-cases, inl, inr, get_elem?-set_self,
  get_elem?-set_ne, length-set, get_elem?-of_lt,
}
use raiezau.Base.Int.{negsuc}
use raiezau.Tracker.Network.Slots.{is_closed, Slot, Poll, clean_slot}

unfoldable pub one_if : Bool → ℕ
one_if true = 1
one_if false = 0

-- 1 if slot `i` passes the test, else 0.
unfoldable pub hit : (Slot → Bool) → List Slot → ℕ → ℕ
unfolding one_if
hit P xs i = elim (get_elem? xs i) [ none ↦ 0 | some x ↦ one_if (P x) ]

-- How many of the first `n` slots pass the test.
unfoldable pub tally : (Slot → Bool) → ℕ → List Slot → ℕ
unfolding hit
tally P zero xs = 0
tally P (suc n) xs = tally P n xs + hit P xs n

pub hit-set_self :
    (P : Slot → Bool) (xs : List Slot) (i : ℕ) (v : Slot)
    → i < length xs
    → hit P (set xs i v) i ≡ one_if (P v)
unfolding hit
hit-set_self P xs i v h = rw (get_elem?-set_self xs i v h, hit)

hit-set_ne :
    (P : Slot → Bool) (xs : List Slot) (i j : ℕ) (v : Slot)
    → i ≢ j
    → hit P (set xs i v) j ≡ hit P xs j
unfolding hit
hit-set_ne P xs i j v h = rw (get_elem?-set_ne xs i j v h, hit)

pub tally-set_above :
    (P : Slot → Bool) (xs : List Slot) (i : ℕ) (v : Slot) (n : ℕ)
    → n ≤ i
    → tally P n (set xs i v) ≡ tally P n xs
unfolding tally
tally-set_above P xs i v zero h = refl
tally-set_above P xs i v (suc n) h =
    omega (arith, tally-set_above P xs i v n (omega arith), hit-set_ne P xs i n v (omega arith))

pub tally-set_below :
    (P : Slot → Bool) (xs : List Slot) (i : ℕ) (v : Slot) (n : ℕ)
    → i < n
    → i < length xs
    → tally P n (set xs i v) + hit P xs i ≡ tally P n xs + one_if (P v)
unfolding tally
tally-set_below P xs i v zero h l = absurd (omega arith)
tally-set_below P xs i v (suc n) h l = elim (Bool-cases (i == n)) [
  | inl e ↦
      let same : i ≡ n = ground arith in
      omega (
        arith,
        tally-set_above P xs i v n (omega arith),
        hit-set_self P xs i v l,
        ap (hit P xs) same,
        ap (hit P (set xs i v)) same,
      )
  | inr e ↦
      let other : i ≢ n = ground arith in
      omega (arith, tally-set_below P xs i v n (omega arith) l, hit-set_ne P xs i n v other)
]

-- The test, of a slot that is not closed.
abbrev pub open_and : (Slot → Bool) → Slot → Bool
open_and P x = not (is_closed x.fd) && P x

-- Slot `j` is not closed.
abbrev pub IsOpen : Poll → ℕ → Type 0
IsOpen p j = (x : Slot) × (get_elem? p.slots j ≡ some x) × (is_closed x.fd ≡ false)

-- What the `while` loop at slot `i` does.
pub record Cleaned (i : ℕ) (p q : Poll) : Type 0 where
  pub counts :
      (P : Slot → Bool) → tally (open_and P) q.nfds q.slots ≡ tally (open_and P) p.nfds p.slots
  pub shrinks : q.nfds ≤ p.nfds
  pub low : i ≤ q.nfds
  pub room : length q.slots ≡ length p.slots
  pub before : (j : ℕ) → j < i → get_elem? q.slots j ≡ get_elem? p.slots j
  pub done : i < q.nfds → IsOpen q i

clean_slot_open : (fuel i : ℕ) (p : Poll) → IsOpen p i → clean_slot fuel i p ≡ p
unfolding clean_slot
clean_slot_open zero i p h = refl
clean_slot_open (suc fuel) i p (x, e, c) = rw (e, clean_slot) (rw c)

pub unchanged : (i : ℕ) (p : Poll) → i < p.nfds → IsOpen p i → Cleaned i p p
unchanged i p lt h = record {
  counts = λ P. refl;
  shrinks = omega arith;
  low = omega arith;
  room = refl;
  before = λ j l. refl;
  done = λ _. h;
}

pub hit-some :
    (P : Slot → Bool) (xs : List Slot) (i : ℕ) (x : Slot)
    → get_elem? xs i ≡ some x
    → hit P xs i ≡ one_if (P x)
unfolding hit
hit-some P xs i x e = rw (e, hit)

-- Slots that answer the test alike.
pub tally_alike :
    (P Q : Slot → Bool) (n : ℕ) (xs ys : List Slot)
    → ((i : ℕ) → i < n → hit P xs i ≡ hit Q ys i)
    → tally P n xs ≡ tally Q n ys
unfolding tally
tally_alike P Q zero xs ys h = refl
tally_alike P Q (suc n) xs ys h =
    omega (arith, tally_alike P Q n xs ys (λ i lt. h i (omega arith)), h n (omega arith))

hit_closed :
    (P : Slot → Bool) (xs : List Slot) (i : ℕ) (x : Slot)
    → get_elem? xs i ≡ some x
    → is_closed x.fd ≡ true
    → hit (open_and P) xs i ≡ 0
hit_closed P xs i x e c = hit-some (open_and P) xs i x e ∙ unfold one_if in rw c

tally_last :
    (P : Slot → Bool) (n : ℕ) (xs : List Slot)
    → 0 < n
    → tally P n xs ≡ tally P (n - 1) xs + hit P xs (n - 1)
unfolding tally
tally_last P zero xs h = absurd (omega arith)
tally_last P (suc n) xs h = let e : suc n - 1 ≡ n = omega arith in rw e

module _ (i : ℕ) (p : Poll) (x : Slot) (lt : i < p.nfds) (fits : p.nfds ≤ length p.slots)
    (at : get_elem? p.slots i ≡ some x) (closed : is_closed x.fd ≡ true) where
  -- slot `i` is the last one
  abbrev dropped : Poll
  dropped = record p { nfds = p.nfds - 1; slots = set p.slots i (record x { fd = negsuc 1 }) }

  dropped-Cleaned : i ≡ p.nfds - 1 → Cleaned i p dropped
  dropped-Cleaned e = record {
    counts = λ P. omega (
      arith,
      tally_last (open_and P) p.nfds p.slots (omega arith),
      tally-set_above (open_and P) p.slots i (record x { fd = negsuc 1 }) (p.nfds - 1)
          (omega arith),
      ap (hit (open_and P) p.slots) e,
      hit_closed P p.slots i x at closed,
    );
    shrinks = omega arith;
    low = omega arith;
    room = length-set p.slots i (record x { fd = negsuc 1 });
    before = λ j h. get_elem?-set_ne p.slots i j (record x { fd = negsuc 1 }) (omega arith);
    done = λ h. absurd (omega arith);
  }

  clean_slot_last : (f : ℕ) → i ≡ p.nfds - 1 → clean_slot (suc f) i p ≡ dropped
  unfolding is_closed
  clean_slot_last f e =
      let test : (i == p.nfds - 1) ≡ true = ground arith in
      let stays =
        clean_slot_open f i dropped
          (record x { fd = negsuc 1 }, get_elem?-set_self p.slots i _ (omega arith), refl) in
      unfold clean_slot in ground (arith, stays)

  -- slot `i` takes the last one's place
  module _ (y : Slot) (last : get_elem? p.slots (p.nfds - 1) ≡ some y) where
    abbrev moved : Poll
    moved = record p { nfds = p.nfds - 1; slots = set p.slots i y }

    clean_slot_inner : (f : ℕ) → i < p.nfds - 1 → clean_slot (suc f) i p ≡ clean_slot f i moved
    clean_slot_inner f h =
        let test : (i == p.nfds - 1) ≡ false = ground arith in unfold clean_slot in ground arith

    moved-Cleaned : {q : Poll} → i < p.nfds - 1 → Cleaned i moved q → Cleaned i p q
    moved-Cleaned h c = record {
      counts = λ P. omega (
        arith,
        c.counts P,
        tally_last (open_and P) p.nfds p.slots (omega arith),
        tally-set_below (open_and P) p.slots i y (p.nfds - 1) h (omega arith),
        hit_closed P p.slots i x at closed,
        hit-some (open_and P) p.slots (p.nfds - 1) y last,
      );
      shrinks = omega (arith, c.shrinks);
      low = c.low;
      room = c.room ∙ length-set p.slots i y;
      before = λ j l. c.before j l ∙ get_elem?-set_ne p.slots i j y (omega arith);
      done = c.done;
    }

pub clean_slot-Cleaned :
    (fuel i : ℕ) (p : Poll)
    → i < p.nfds
    → p.nfds ≤ length p.slots
    → p.nfds ≤ fuel + i
    → Cleaned i p (clean_slot fuel i p)
clean_slot-Cleaned zero i p lt fits fuel = absurd (omega arith)
clean_slot-Cleaned (suc f) i p lt fits fuel =
    let (x, at) = get_elem?-of_lt p.slots i (omega arith) in
    elim (Bool-cases (is_closed x.fd)) [
      | inr e ↦ rw (clean_slot_open (suc f) i p (x, at, e)) (unchanged i p lt (x, at, e))
      | inl e ↦ elim (Bool-cases (i == p.nfds - 1)) [
        | inl last ↦
            let same : i ≡ p.nfds - 1 = ground arith in
            rw (clean_slot_last i p x lt fits at e f same) (dropped-Cleaned i p x lt fits at e same)
        | inr inner ↦
            let other : i < p.nfds - 1 = ground arith in
            let (y, end) = get_elem?-of_lt p.slots (p.nfds - 1) (omega arith) in
            rw (clean_slot_inner i p x lt fits at e y end f other) (
              moved-Cleaned i p x lt fits at e y end other (
                clean_slot-Cleaned f i (moved i p x lt fits at e y end) other
                  (omega (arith, length-set p.slots i y)) (omega arith)))
      ]
    ]
