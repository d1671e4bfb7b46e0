-- ===== src/Tracker/Network/Incoming.antt =====
-- The body of the loop of `handle_incoming_data`, and the references of slots and threads.
use raiezau.Base.{
  ℕ, ◌+◌, ◌<◌, ◌≡◌, refl, sym, ap, ◌∙◌, none, some, List, [], ◌∷◌, arith, inl, inr, get_elem?,
  Bool-cases, Option-cases, if◌then◌else◌, ◌==◌, get_elem?-set_self,
}
use mathlib.Core.Path.{subst}
use raiezau.Cutil.Uthash.{Uthash}
use raiezau.Tracker.State.{State}
use raiezau.Tracker.Network.Holders.{
  IsCounted, SameRefs-IsCounted, client_inc_ref-IsCounted, client_dec_ref-IsCounted, hang_up-some,
  start_request-some, rehear-SameRefs,
}
use raiezau.Tracker.Network.Holding.{
  IsWell, slot_refs, same_value, written, written_same, written_less, written-IsWell,
}
use raiezau.Tracker.Network.Slots.{
  Slot, Poll, Loop, is_negative, is_closed, has_flag, pollin, poll_gone, pollrdhup, rehear, hang_up,
  start_request, incoming_slot,
}

-- What a request thread still has to do.
pub data Phase : Type 0 where
  serving marking leaving : Phase

pub record Thread : Type 0 where
  pub client : ℕ
  pub phase : Phase

-- How many threads work for the client.
unfoldable pub running : ℕ → List Thread → ℕ
running d [] = 0
running d (t ∷ ts) = (if t.client == d then 1 else 0) + running d ts

-- The threads that are started for the clients, and those that run already.
unfoldable pub begun : List ℕ → List Thread → List Thread
begun [] ts = ts
begun (c ∷ cs) ts = record { client = c; phase = serving } ∷ begun cs ts

module _ {u : Uthash ℕ} (i : ℕ) (x : Slot) (p : Poll) (s : State u) (l : Loop u) (ts : List Thread)
    (well : IsWell p) (lt : i < p.nfds) (at : get_elem? p.slots i ≡ some x)
    (counted : IsCounted (λ d. slot_refs p d + running d ts) s) where
  -- The references are those of the new slots and threads.
  abbrev Counts : Loop u → Type 0
  Counts l =
      IsWell l.poll × IsCounted (λ d. slot_refs l.poll d + running d (begun l.threads ts)) l.shared

  module _ (y : Slot) (c : ℕ) (s1 : State u) (has : x.client ≡ some c)
      (heard : rehear u x c s ≡ some (y, s1)) where
    abbrev heard_loop : Loop u
    heard_loop = record { poll = written p i x y well lt at; shared = s1; threads = [] }

    heard-Counts : Counts heard_loop
    unfolding begun
    heard-Counts =
        let (same, client, fd) = rehear-SameRefs x y c s s1 heard in
        (
          written-IsWell p i x y well lt at
              (λ e. client ∙ well.empty i x lt at (ap is_closed (sym fd) ∙ e)),
          SameRefs-IsCounted _ _ s s1 same
              (λ d. ap (λ n. n + running d ts) (written_same p i x y well lt at (sym client) d))
              counted,
        )

    abbrev at_heard : get_elem? heard_loop.poll.slots i ≡ some y
    at_heard = let fits = well.fits in get_elem?-set_self p.slots i y (omega arith)

    hang_up-Counts : hang_up u i y c heard_loop ≡ some l → Counts l
    unfolding begun
    hang_up-Counts e =
        let (same, client, fd) = rehear-SameRefs x y c s s1 heard in
        let (dropped, v, gone, slots, threads) = hang_up-some i y c heard_loop l e in
        let (well1, counted1) = heard-Counts in
        let q = heard_loop.poll in
        rw (slots, threads)
          (
            written-IsWell q i y v well1 lt at_heard (λ _. gone),
            client_dec_ref-IsCounted _ _ s1 l.shared c dropped
                (λ d.
                  let less = written_less q i y v well1 lt at_heard c d (client ∙ has) gone in
                  omega (arith, less))
                counted1,
          )

    start_request-Counts : start_request u i y c heard_loop ≡ some l → Counts l
    unfolding begun running
    start_request-Counts e =
        let (same, client, fd) = rehear-SameRefs x y c s s1 heard in
        let (raised, slots, threads) = start_request-some i y c heard_loop l e in
        let v : Slot = record y { events = pollrdhup; revents = 0 } in
        let (well1, counted1) = heard-Counts in
        let q = heard_loop.poll in
        rw (slots, threads)
          (
            written-IsWell q i y v well1 lt at_heard (well1.empty i y lt at_heard),
            client_inc_ref-IsCounted _ _ s1 l.shared c raised
                (λ d.
                  let same = written_same q i y v well1 lt at_heard refl d in omega (arith, same))
                counted1,
          )

  -- The body of the loop on a slot keeps the count of the references right.
  pub incoming_slot-IsCounted :
      incoming_slot u i x (record { poll = p; shared = s; threads = [] }) ≡ some l → Counts l
  unfolding incoming_slot begun
  incoming_slot-IsCounted h = elim (Bool-cases (is_negative x.fd)) [
    | inl e ↦ subst Counts (same_value refl (rw (incoming_slot, e) at h)) (well, counted)
    | inr e ↦ elim (Option-cases x.client) [
      | inl f ↦ let no : none ≡ some l = rw (incoming_slot, e, f) at h in ground arith
      | inr (c, f) ↦ elim (Option-cases (rehear u x c s)) [
        | inl g ↦ let no : none ≡ some l = rw (incoming_slot, e, f, g) at h in ground arith
        | inr ((y, s1), g) ↦ elim (Bool-cases (has_flag y.revents poll_gone)) [
          | inl gone ↦ hang_up-Counts y c s1 f g (rw (incoming_slot, e, f, g, gone) at h)
          | inr stays ↦ elim (Bool-cases (has_flag y.revents pollin)) [
            | inl new ↦
                start_request-Counts y c s1 f g (rw (incoming_slot, e, f, g, stays, new) at h)
            | inr quiet ↦
                subst Counts (same_value refl (rw (incoming_slot, e, f, g, stays, quiet) at h))
                  (heard-Counts y c s1 f g)
          ]
        ]
      ]
    ]
  ]
