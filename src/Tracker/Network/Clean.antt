-- ===== src/Tracker/Network/Clean.antt =====
-- `clean_fds` removes the closed slots and keeps every other one.
use raiezau.Base.{
  ℕ, zero, suc, ◌+◌, ◌≤◌, ◌<◌, ◌≡◌, refl, ◌∙◌, Bool, true, false, ◌==◌, ltb, arith, length,
  get_elem?, Bool-cases, inl, inr,
}
use raiezau.Tracker.Network.Slots.{Slot, Poll, clean_slot, clean_loop, clean_fds}
use raiezau.Tracker.Network.Round.{tally, open_and, IsOpen, Cleaned, clean_slot-Cleaned}

-- What the `for` loop does from slot `i` on.
pub record Swept (p q : Poll) : Type 0 where
  pub counts :
      (P : Slot → Bool) → tally (open_and P) q.nfds q.slots ≡ tally (open_and P) p.nfds p.slots
  pub shrinks : q.nfds ≤ p.nfds
  pub positive : 1 ≤ q.nfds
  pub room : length q.slots ≡ length p.slots
  pub listener : get_elem? q.slots 0 ≡ get_elem? p.slots 0
  pub opened : (j : ℕ) → 1 ≤ j → j < q.nfds → IsOpen q j

Cleaned-clean :
    (i : ℕ) (p q : Poll)
    → Cleaned i p q
    → ((j : ℕ) → 1 ≤ j → j < i → j < p.nfds → IsOpen p j)
    → (j : ℕ) → 1 ≤ j
    → j < suc i
    → j < q.nfds
    → IsOpen q j
Cleaned-clean i p q c clean j a b d = elim (Bool-cases (j == i)) [
  | inl e ↦ let same : j ≡ i = ground arith in rw same (c.done (omega arith))
  | inr e ↦
      let below : j < i = ground arith in
      let (x, at, o) = clean j a below (omega (arith, c.shrinks)) in (x, c.before j below ∙ at, o)
]

Swept-trans : (i : ℕ) (p q r : Poll) → 1 ≤ i → Cleaned i p q → Swept q r → Swept p r
Swept-trans i p q r one c s = record {
  counts = λ P. s.counts P ∙ c.counts P;
  shrinks = omega (arith, s.shrinks, c.shrinks);
  positive = s.positive;
  room = s.room ∙ c.room;
  listener = s.listener ∙ c.before 0 one;
  opened = s.opened;
}

clean_loop_next :
    (k i : ℕ) (p : Poll)
    → ltb i p.nfds ≡ true
    → clean_loop (suc k) i p ≡ clean_loop k (suc i) (clean_slot p.nfds i p)
clean_loop_next k i p e = unfold clean_loop in rw (e, clean_loop)

clean_loop_end : (k i : ℕ) (p : Poll) → ltb i p.nfds ≡ false → clean_loop (suc k) i p ≡ p
clean_loop_end k i p e = unfold clean_loop in rw (e, clean_loop)

clean_loop-Swept :
    (rounds i : ℕ) (p : Poll)
    → 1 ≤ i
    → 1 ≤ p.nfds
    → p.nfds ≤ length p.slots
    → p.nfds ≤ rounds + i
    → ((j : ℕ) → 1 ≤ j → j < i → j < p.nfds → IsOpen p j)
    → Swept p (clean_loop rounds i p)
clean_loop-Swept zero i p one least fits fuel clean =
    unfold clean_loop in
    record {
      counts = λ P. refl;
      shrinks = omega arith;
      positive = least;
      room = refl;
      listener = refl;
      opened = λ j a b. clean j a (omega arith) b;
    }
clean_loop-Swept (suc k) i p one least fits fuel clean = elim (Bool-cases (ltb i p.nfds)) [
  | inr e ↦
      let past : p.nfds ≤ i = ground arith in
      rw (clean_loop_end k i p e) record {
        counts = λ P. refl;
        shrinks = omega arith;
        positive = least;
        room = refl;
        listener = refl;
        opened = λ j a b. clean j a (omega arith) b;
      }
  | inl e ↦
      let inside : i < p.nfds = ground arith in
      let c = clean_slot-Cleaned p.nfds i p inside fits (omega arith) in
      let q = clean_slot p.nfds i p in
      let r =
        clean_loop-Swept k (suc i) q (omega arith) (omega (arith, c.low))
          (omega (arith, c.shrinks, c.room)) (omega (arith, c.shrinks))
          (Cleaned-clean i p q c clean) in
      rw (clean_loop_next k i p e) (Swept-trans i p q _ one c r)
]

pub clean_fds-Swept : (p : Poll) → 1 ≤ p.nfds → p.nfds ≤ length p.slots → Swept p (clean_fds p)
clean_fds-Swept p least fits =
    let s =
      clean_loop-Swept p.nfds 1 p (omega arith) least fits (omega arith)
        (λ j a b. absurd (omega arith)) in
    unfold clean_fds in s

-- If the slots in use are within the arrays and the listener's is one of them, then after `clean_fds`
-- every slot in use but the listener's is open.
pub clean_fds-IsOpen :
    (p : Poll) (j : ℕ)
    → 1 ≤ p.nfds
    → p.nfds ≤ length p.slots
    → 1 ≤ j
    → j < (clean_fds p).nfds
    → IsOpen (clean_fds p) j
clean_fds-IsOpen p j least fits one lt = (clean_fds-Swept p least fits).opened j one lt

-- If the slots in use are within the arrays and the listener's is one of them, `clean_fds` keeps every
-- open slot, its client and its flags with it: whatever test one puts to
-- the open slots, as many pass it as before. The listener stays in slot 0 and the arrays keep their
-- size.
pub tally-clean_fds :
    (p : Poll) (P : Slot → Bool)
    → 1 ≤ p.nfds
    → p.nfds ≤ length p.slots
    → (tally (open_and P) (clean_fds p).nfds (clean_fds p).slots
        ≡ tally (open_and P) p.nfds p.slots)
      × (get_elem? (clean_fds p).slots 0 ≡ get_elem? p.slots 0)
      × (length (clean_fds p).slots ≡ length p.slots)
      × (1 ≤ (clean_fds p).nfds)
      × ((clean_fds p).nfds ≤ p.nfds)
tally-clean_fds p P least fits =
    let s = clean_fds-Swept p least fits in (s.counts P, s.listener, s.room, s.positive, s.shrinks)
