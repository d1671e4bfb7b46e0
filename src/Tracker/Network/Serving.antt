-- ===== src/Tracker/Network/Serving.antt =====
-- The body of the loop of `handle_incoming_data` on one slot.
use raiezau.Base.{
  ℕ, ◌≡◌, ◌≢◌, refl, sym, ap, ◌∙◌, true, false, none, some, List, [], ◌∷◌, ◌++◌, arith, get_elem?,
  set, append-nil, Bool-cases, inl, inr, get_elem?-set_self, get_elem?-set_ne, get_elem?-lt,
  length-set,
}
use raiezau.Base.Int.{negsuc}
use raiezau.Cutil.Uthash.{Uthash}
use raiezau.Tracker.Client.{client_inc_ref, client_dec_ref}
use raiezau.Tracker.Client.Dropping.{Spares, client_dec_ref_lem}
use raiezau.Tracker.File.Peers.{IsTabled}
use raiezau.Tracker.Network.Ready.{ready, ready_gone, ready_one, ready_quiet, drop-set}
use raiezau.Tracker.Network.Settled.{
  Settled, IsServed, Leaves, Rounded, rehear_lem, client_inc_ref_lem,
}
use raiezau.Tracker.Network.Slots.{
  Slot, Loop, is_negative, has_flag, pollin, poll_gone, pollrdhup, rehear, hang_up, start_request,
  incoming_slot,
}
use raiezau.Tracker.State.{State}

module _ {u : Uthash ℕ} where
  module _ (i : ℕ) (x y : Slot) (l : Loop u) (c : ℕ) (t : State u) (e : is_negative x.fd ≡ false)
      (has : x.client ≡ some c) (at : get_elem? l.poll.slots i ≡ some x)
      (heard : rehear u x c l.shared ≡ some (y, t)) (spares : Spares c l.shared t)
      (revents : y.revents ≡ x.revents) (fd : y.fd ≡ x.fd) (client : y.client ≡ x.client) where
    abbrev heard_loop : Loop u
    heard_loop = record l { shared = t; poll = record l.poll { slots = set l.poll.slots i y } }

    flag : (f : ℕ) → has_flag y.revents f ≡ has_flag x.revents f
    flag f = ap (λ r. has_flag r f) revents

    then-Leaves : (w : State u) → Spares c t w → Leaves x l.shared w
    then-Leaves w more = record {
      others = λ d apart.
          let ne : c ≢ d =
            λ eq. elim apart [ inl closed ↦ ground arith | inr other ↦ other (has ∙ ap some eq) ] in
          more.others d ne ∙ spares.others d ne;
      count = more.count ∙ spares.count;
      tabled = more.tabled;
    }

    -- a second write to the slot
    abbrev twice : State u → List ℕ → Slot → Loop u
    twice w ts v = record {
      poll = record l.poll { slots = set (set l.poll.slots i y) i v };
      shared = w;
      threads = ts;
    }

    module _ (w : State u) (ts : List ℕ) (v : Slot) (more : Spares c t w)
        (threads : ts ≡ l.threads ++ ready (x ∷ [])) (is : Settled x v) where
      twice-Rounded : Rounded i x l (twice w ts v)
      twice-Rounded = record {
        leaves = then-Leaves w more;
        threads = threads;
        nfds = refl;
        later = drop-set i (set l.poll.slots i y) v ∙ drop-set i l.poll.slots y;
        slots = λ j ne.
            get_elem?-set_ne (set l.poll.slots i y) i j v ne
            ∙ get_elem?-set_ne l.poll.slots i j y ne;
        settled = (
          v,
          get_elem?-set_self (set l.poll.slots i y) i v (
              let lt = get_elem?-lt l.poll.slots i at in
              omega (arith, length-set l.poll.slots i y)),
          is,
        );
      }

    slot_gone :
        (w : State u)
        → has_flag x.revents poll_gone ≡ true
        → client_dec_ref u c t ≡ some (tt, w)
        → Spares c t w
        → (l' : Loop u) × (incoming_slot u i x l ≡ some l') × Rounded i x l l'
    unfolding incoming_slot hang_up
    slot_gone w gone dropped more =
        let v : Slot = record { fd = negsuc 0; events = 0; revents = 0; client = none } in
        (
          twice w l.threads v,
          rw (incoming_slot, e, has, heard, flag poll_gone, gone) (rw (hang_up, dropped) refl),
          twice-Rounded w l.threads v more
              (sym (append-nil l.threads)
                ∙ ap (λ r. l.threads ++ r) (sym (ready_gone x c e has gone)))
              (record {
                closed = λ f. ground arith;
                gone = λ _ _. refl;
                kept = λ _ f. ground arith;
                served = λ _ f _. ground arith;
              }),
        )

    slot_started :
        (w : State u)
        → has_flag x.revents poll_gone ≡ false
        → has_flag x.revents pollin ≡ true
        → client_inc_ref u c t ≡ some (tt, w)
        → Spares c t w
        → (l' : Loop u) × (incoming_slot u i x l ≡ some l') × Rounded i x l l'
    unfolding incoming_slot start_request
    slot_started w stays new raised more =
        let v : Slot = record y { events = pollrdhup; revents = 0 } in
        (
          twice w (l.threads ++ c ∷ []) v,
          rw (incoming_slot, e, has, heard, flag poll_gone, stays, flag pollin, new)
              (rw (start_request, raised) refl),
          twice-Rounded w (l.threads ++ c ∷ []) v more
              (ap (λ r. l.threads ++ r) (sym (ready_one x c e has stays new)))
              (record {
                closed = λ f. ground arith;
                gone = λ _ f. ground arith;
                kept = λ _ _. (fd, client);
                served = λ _ _ _. (refl, refl);
              }),
        )

    slot_quiet :
        IsTabled t
        → has_flag x.revents poll_gone ≡ false
        → has_flag x.revents pollin ≡ false
        → (l' : Loop u) × (incoming_slot u i x l ≡ some l') × Rounded i x l l'
    unfolding incoming_slot
    slot_quiet maps stays quiet = (
      heard_loop,
      rw (incoming_slot, e, has, heard, flag poll_gone, stays, flag pollin, quiet) refl,
      record {
        leaves = then-Leaves t (record { others = λ d ne. refl; count = refl; tabled = maps });
        threads =
            sym (append-nil l.threads)
            ∙ ap (λ r. l.threads ++ r) (sym (ready_quiet x c e has stays quiet));
        nfds = refl;
        later = drop-set i l.poll.slots y;
        slots = λ j ne. get_elem?-set_ne l.poll.slots i j y ne;
        settled = (
          y,
          get_elem?-set_self l.poll.slots i y (get_elem?-lt l.poll.slots i at),
          record {
            closed = λ f. ground arith;
            gone = λ _ f. ground arith;
            kept = λ _ _. (fd, client);
            served = λ _ _ f. ground arith;
          },
        );
      },
    )

  -- A round on a slot that is closed or has a client.
  pub incoming_slot_lem :
      (i : ℕ) (x : Slot) (l : Loop u)
      → get_elem? l.poll.slots i ≡ some x
      → IsTabled l.shared
      → IsServed l.shared x
      → (l' : Loop u) × (incoming_slot u i x l ≡ some l') × Rounded i x l l'
  unfolding incoming_slot ready
  incoming_slot_lem i x l at maps (inl e) = (
    l,
    rw (incoming_slot, e) refl,
    record {
      leaves = record { others = λ d apart. refl; count = refl; tabled = maps };
      threads = rw e (sym (append-nil l.threads));
      nfds = refl;
      later = refl;
      slots = λ j ne. refl;
      settled = (
        x,
        at,
        record {
          closed = λ _. refl;
          gone = λ f. ground arith;
          kept = λ f. ground arith;
          served = λ f. ground arith;
        },
      );
    },
  )
  incoming_slot_lem i x l at maps (inr (c, k, e, has, live, listed)) =
      let (y, t, heard, spares, (j, live', listed'), revents, fd, client) =
        rehear_lem l.shared x c k live maps listed in
      elim (Bool-cases (has_flag x.revents poll_gone)) [
        | inl gone ↦
            let (w, dropped, more) = client_dec_ref_lem c j t live' spares.tabled listed' in
            slot_gone i x y l c t e has at heard spares revents fd client w gone dropped more
        | inr stays ↦ elim (Bool-cases (has_flag x.revents pollin)) [
          | inl new ↦
              let (w, raised, more) = client_inc_ref_lem c j t live' spares.tabled in
              slot_started i x y l c t e has at heard spares revents fd client w stays new raised
                more
          | inr quiet ↦
              slot_quiet i x y l c t e has at heard spares revents fd client spares.tabled stays
                quiet
        ]
      ]
