-- ===== src/Tracker/Network/Connect.antt =====
-- New connections: `handle_new_connection` and `add_new_client_to_fds`.
use raiezau.Base.{
  ℕ, zero, suc, ◌+◌, ◌*◌, ◌%◌, ◌^◌, ◌≤◌, ◌<◌, ◌≡◌, refl, sym, ap, ◌∙◌, true, some, List, [], ◌∷◌,
  ltb, arith, length, get_elem?, set, Bool-cases, inl, inr, get_elem?-set_self, get_elem?-set_ne,
  length-set,
}
use raiezau.Tracker.Network.Slots.{Slot, Poll, resize, reserve, put_slot}

-- The arrays have room for the slots in use, and `fds_buffer_size` is their size.
pub record IsSized (p : Poll) : Type 0 where
  pub listener : 1 ≤ p.nfds
  pub fits : p.nfds ≤ p.fds_buffer_size
  pub size : length p.slots ≡ p.fds_buffer_size

pub length-resize : (n : ℕ) (junk : Slot) (xs : List Slot) → length (resize n junk xs) ≡ n
unfolding resize
length-resize zero junk xs = refl
length-resize (suc n) junk [] = ap suc (length-resize n junk [])
length-resize (suc n) junk (x ∷ xs) = ap suc (length-resize n junk xs)

pub get_elem?-resize :
    (n : ℕ) (junk : Slot) (xs : List Slot) (i : ℕ)
    → i < length xs
    → i < n
    → get_elem? (resize n junk xs) i ≡ get_elem? xs i
unfolding resize
get_elem?-resize zero junk xs i h l = absurd (omega arith)
get_elem?-resize (suc n) junk [] i h l = absurd (omega arith)
get_elem?-resize (suc n) junk (x ∷ xs) zero h l = refl
get_elem?-resize (suc n) junk (x ∷ xs) (suc i) h l =
    get_elem?-resize n junk xs i (omega arith) (omega arith)

-- What the growth keeps and gains.
record Reserved (p q : Poll) : Type 0 where
  same : q.nfds ≡ p.nfds
  room : p.nfds < q.fds_buffer_size
  size : length q.slots ≡ q.fds_buffer_size
  kept : (i : ℕ) → i < p.nfds → get_elem? q.slots i ≡ get_elem? p.slots i

reserve-Reserved :
    (junk : Slot) (p : Poll) → IsSized p → p.fds_buffer_size < 2 ^ 31 → Reserved p (reserve junk p)
reserve-Reserved junk p h small =
    let doubled = p.fds_buffer_size * 2 % 2 ^ 32 in
    elim (Bool-cases (ltb p.fds_buffer_size (p.nfds + 1))) [
      | inl e ↦
          unfold reserve in
          rw e record {
            same = refl;
            room = omega (arith, h.listener, h.fits);
            size = length-resize doubled junk p.slots;
            kept = λ i l.
                get_elem?-resize doubled junk p.slots i (omega (arith, h.fits, h.size))
                  (omega (arith, h.fits));
          }
      | inr e ↦
          let room : p.nfds < p.fds_buffer_size = ground arith in
          unfold reserve in
          rw e record { same = refl; room = room; size = h.size; kept = λ i l. refl }
    ]

-- The growth in `add_new_client_to_fds` and the write that follows it, for a buffer of fewer than
-- 2 ^ 31 slots: the write of slot `nfds` is inside of the arrays, whether or not they had to grow;
-- the slots in use stay as they are, and the size on record stays right.
pub put_slot-reserve :
    (junk x : Slot) (p : Poll) (i : ℕ)
    → IsSized p
    → p.fds_buffer_size < 2 ^ 31
    → i < p.nfds
    → (q : Poll) × (put_slot x (reserve junk p) ≡ some q)
      × IsSized q
      × (q.nfds ≡ p.nfds + 1)
      × (get_elem? q.slots p.nfds ≡ some x)
      × (get_elem? q.slots i ≡ get_elem? p.slots i)
put_slot-reserve junk x p i h small l =
    let g = reserve junk p in
    let r = reserve-Reserved junk p h small in
    let inside : ltb g.nfds (length g.slots) ≡ true = ground (arith, r.same, r.room, r.size) in
    (
      record g { slots = set g.slots g.nfds x; nfds = g.nfds + 1 },
      unfold put_slot in rw inside,
      record {
        listener = omega arith;
        fits = omega (arith, r.same, r.room);
        size = length-set g.slots g.nfds x ∙ r.size;
      },
      omega (arith, r.same),
      ap (get_elem? (set g.slots g.nfds x)) (sym r.same)
          ∙ get_elem?-set_self g.slots g.nfds x (omega (arith, r.same, r.room, r.size)),
      get_elem?-set_ne g.slots g.nfds i x (omega (arith, r.same)) ∙ r.kept i l,
    )
