-- ===== src/Tracker/Network/Requests.antt =====
-- `handle_incoming_data` goes through all slots.
use mathlib.Core.Path.{subst}
use raiezau.Base.{
  ℕ, zero, suc, ◌+◌, ◌-◌, ◌≤◌, ◌<◌, ◌≡◌, ◌≢◌, refl, sym, ap, ◌∙◌, some, List, [], ◌∷◌, ◌++◌, ◌==◌,
  arith, length, get_elem?, take, drop, All, append_assoc, append-nil, Bool-cases, false, inl, inr,
}
use raiezau.Base.Index.{length-drop, drop-suc}
use raiezau.Cutil.Uthash.{Uthash}
use raiezau.Tracker.Client.Dropping.{IsListed}
use raiezau.Tracker.File.Peers.{IsTabled}
use raiezau.Tracker.Network.Holding.{same_value}
use raiezau.Tracker.Network.Ready.{ready, ready-cons}
use raiezau.Tracker.Network.Serving.{incoming_slot_lem}
use raiezau.Tracker.Network.Settled.{IsServed, IsApart, Leaves, Settled}
use raiezau.Tracker.Network.Slots.{
  Slot, Poll, Loop, is_negative, incoming_slot, incoming_loop, handle_incoming_data,
}
use raiezau.Tracker.State.{State, Client}

-- No two open slots have the same client.
abbrev pub Apart : List Slot → Type 0
Apart [] = Unit {0}
Apart (x ∷ xs) =
    ((c : ℕ) → is_negative x.fd ≡ false → x.client ≡ some c → All (λ y. IsApart y c) xs) × Apart xs

module _ {u : Uthash ℕ} where
  IsListed-count :
      (s t : State u) (k : Client) → length t.files ≡ length s.files → IsListed s k → IsListed t k
  IsListed-count s t k same (inl h) = inl h
  IsListed-count s t k same (inr (key, named, seeds, leeches)) = inr (
    key,
    named,
    subst (λ n. All (λ f. f < n) k.files_seed) (sym same) seeds,
    subst (λ n. All (λ f. f < n) k.files_leech) (sym same) leeches,
  )

  -- The slots behind `x` are served as before.
  Leaves-IsServed :
      (x : Slot) (s t : State u) (ys : List Slot)
      → Leaves x s t
      → ((c : ℕ) → is_negative x.fd ≡ false → x.client ≡ some c → All (λ y. IsApart y c) ys)
      → All (IsServed s) ys
      → All (IsServed t) ys
  Leaves-IsServed x s t [] l apart h = tt
  Leaves-IsServed x s t (y ∷ ys) l apart (inl e, h) =
      (inl e, Leaves-IsServed x s t ys l (λ c f g. (apart c f g).1) h)
  Leaves-IsServed x s t (y ∷ ys) l apart (inr (c, k, e, has, live, listed), h) =
      let other : IsApart x c = elim (Bool-cases (is_negative x.fd)) [
        | inl f ↦ inl f
        | inr f ↦ inr (λ g. elim (apart c f g).0 [ inl closed ↦ ground arith | inr ne ↦ ne has ])
      ] in
      (
        inr (c, k, e, has, l.others c other ∙ live, IsListed-count s t k l.count listed),
        Leaves-IsServed x s t ys l (λ c f g. (apart c f g).1) h,
      )

  incoming_loop_next :
      (k i : ℕ) (x : Slot) (l l' : Loop u)
      → get_elem? l.poll.slots i ≡ some x
      → incoming_slot u i x l ≡ some l'
      → incoming_loop u (suc k) i l ≡ incoming_loop u k (suc i) l'
  unfolding incoming_loop
  incoming_loop_next k i x l l' at step = rw (incoming_loop, at, step) refl

  -- What the loop leaves from slot `i` on.
  record Looped (i rounds : ℕ) (l l' : Loop u) (started : List ℕ) : Type 0 where
    threads : l'.threads ≡ l.threads ++ started
    nfds : l'.poll.nfds ≡ l.poll.nfds
    before : (j : ℕ) → j < i → get_elem? l'.poll.slots j ≡ get_elem? l.poll.slots j
    settled :
        (j : ℕ) (x : Slot)
        → i ≤ j
        → j < i + rounds
        → get_elem? l.poll.slots j ≡ some x
        → (y : Slot) × (get_elem? l'.poll.slots j ≡ some y) × Settled x y

  incoming_loop_lem :
      (rounds i : ℕ) (l : Loop u) (rest : List Slot)
      → drop i l.poll.slots ≡ rest
      → rounds ≤ length rest
      → IsTabled l.shared
      → All (IsServed l.shared) (take rounds rest)
      → Apart (take rounds rest)
      → (l' : Loop u) × (incoming_loop u rounds i l ≡ some l')
        × Looped i rounds l l' (ready (take rounds rest))
  unfolding incoming_loop ready
  incoming_loop_lem zero i l rest e h maps served apart = (
    l,
    refl,
    record {
      threads = sym (append-nil l.threads);
      nfds = refl;
      before = λ j lt. refl;
      settled = λ j x le lt. absurd (omega arith);
    },
  )
  incoming_loop_lem (suc k) i l [] e h maps served apart = absurd (omega arith)
  incoming_loop_lem (suc k) i l (x ∷ xs) e h maps (here, served) (first, apart) =
      let (at, tail) = drop-suc i l.poll.slots e in
      let (l1, step, r) = incoming_slot_lem i x l at maps here in
      let (l2, later, s) =
        incoming_loop_lem k (suc i) l1 xs (r.later ∙ tail) (omega arith) r.leaves.tabled
          (Leaves-IsServed x l.shared l1.shared (take k xs) r.leaves first served) apart in
      (
        l2,
        incoming_loop_next k i x l l1 at step ∙ later,
        record {
          threads =
              s.threads
              ∙ ap (λ t. t ++ ready (take k xs)) r.threads
              ∙ append_assoc l.threads (ready (x ∷ [])) (ready (take k xs))
              ∙ ap (λ t. l.threads ++ t) (sym (ready-cons x (take k xs)));
          nfds = s.nfds ∙ r.nfds;
          before = λ j lt. s.before j (omega arith) ∙ r.slots j (omega arith);
          settled = λ j z le lt at'. elim (Bool-cases (i == j)) [
            | inl same ↦
                let eq : i ≡ j = ground arith in
                let (y, at1, is) = r.settled in
                (
                  y,
                  ap (get_elem? l2.poll.slots) (sym eq) ∙ s.before i (omega arith) ∙ at1,
                  subst (λ x. Settled x y) (same_value at (ap (get_elem? l.poll.slots) eq ∙ at'))
                      is,
                )
            | inr other ↦
                let ne : i ≢ j = λ eq. ground arith in
                s.settled j z (ground arith) (omega arith) (r.slots j ne ∙ at')
          ];
        },
      )

  -- If the slots in use are within the arrays, the keys of the files' tables are distinct, and each slot
  -- in use but the listener's is closed or has a client that was not freed, that is in no other open
  -- slot, and that lists no files or has announced its port and lists files that exist, then
  -- `handle_incoming_data` returns: it uses no freed client. It starts one request thread for each open
  -- slot that reports data and not the end of the connection, in the order of the slots, and no
  -- others. An open slot that reports the end of its connection is closed and keeps no client; each
  -- other open slot keeps its descriptor and its client, and is not asked for data again if it has
  -- reported some; closed slots and the listener's stay as they are.
  pub handle_incoming_data_lem :
      (p : Poll) (s : State u)
      → 1 ≤ p.nfds
      → p.nfds ≤ length p.slots
      → IsTabled s
      → All (IsServed s) (take (p.nfds - 1) (drop 1 p.slots))
      → Apart (take (p.nfds - 1) (drop 1 p.slots))
      → (l : Loop u) × (handle_incoming_data u (p, s) ≡ some l)
        × (l.threads ≡ ready (take (p.nfds - 1) (drop 1 p.slots)))
        × (l.poll.nfds ≡ p.nfds)
        × (get_elem? l.poll.slots 0 ≡ get_elem? p.slots 0)
        × ((j : ℕ) (x : Slot)
            → 1 ≤ j
            → j < p.nfds
            → get_elem? p.slots j ≡ some x
            → (y : Slot) × (get_elem? l.poll.slots j ≡ some y) × Settled x y)
  unfolding handle_incoming_data
  handle_incoming_data_lem p s least fits maps served apart =
      let (l, e, r) =
        incoming_loop_lem (p.nfds - 1) 1 (record { poll = p; shared = s; threads = [] })
          (drop 1 p.slots) refl (omega (arith, length-drop 1 p.slots)) maps served apart in
      (
        l,
        e,
        r.threads,
        r.nfds,
        r.before 0 (omega arith),
        λ j x le lt at. r.settled j x le (omega arith) at,
      )
