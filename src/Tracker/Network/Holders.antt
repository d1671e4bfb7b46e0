-- ===== src/Tracker/Network/Holders.antt =====
-- The calls of the network thread that take and drop references, where every client has as many as it
-- has holders.
pub use raiezau.Tracker.Client.Neutral.{refs}
use raiezau.Base.{
  ℕ, ◌+◌, ◌<◌, ◌≡◌, set, refl, ap, ◌∙◌, false, none, some, [], ◌∷◌, ◌++◌, ◌==◌, arith, ◌⊎◌,
  if◌then◌else◌, Bool-cases, Option-cases, inl, inr, get_elem?,
}
use raiezau.Base.Int.{pos, negsuc}
use raiezau.Cutil.Uthash.{Uthash}
use raiezau.Tracker.Client.{client_get_or_create, client_inc_ref, client_dec_ref}
use raiezau.Tracker.Client.Counts.{client_inc_ref-refs, client_dec_ref-refs, created-refs}
use raiezau.Tracker.Client.Neutral.{count_in, cells-SameRefs, SameRefs, update-IsNeutral}
use raiezau.Tracker.Env.{SockAddr}
use raiezau.Tracker.State.{load_client-eq_some, State, load_client, store_client}
use raiezau.Tracker.Network.Settled.{IsAlive}
use raiezau.Tracker.Network.Slots.{
  Slot, Poll, Loop, add_new_client_to_fds, rehear, hang_up, start_request, is_closed, put_slot,
  reserve, pollin, pollrdhup,
}

-- 1 for the client itself, else 0.
abbrev pub one : ℕ → ℕ → ℕ
one c d = if c == d then 1 else 0

module _ {u : Uthash ℕ} where
  -- A client that was not freed has as many references as it has holders, and one that was freed, or
  -- was never made, has no holder.
  abbrev pub IsCounted : (ℕ → ℕ) → State u → Type 0
  IsCounted n s = (d : ℕ) → (refs s d ≡ some (n d)) ⊎ ((refs s d ≡ none) × (n d ≡ 0))

  -- The same references, counted in another way.
  pub SameRefs-IsCounted :
      (n m : ℕ → ℕ) (s t : State u)
      → SameRefs s t
      → ((d : ℕ) → m d ≡ n d)
      → IsCounted n s
      → IsCounted m t
  SameRefs-IsCounted n m s t same e h d = ground (arith, same d, h d, e d)

  pub created-IsCounted :
      (n : ℕ → ℕ) (s t : State u) (socket : ℕ) (addr : SockAddr) (c : ℕ)
      → client_get_or_create u socket (some addr) s ≡ (some c, t)
      → IsCounted n s
      → IsCounted n t
  created-IsCounted n s t socket addr c e h d =
      ground (arith, created-refs socket addr s t c d e, h d)

  pub client_inc_ref-IsCounted :
      (n m : ℕ → ℕ) (s t : State u) (c : ℕ)
      → client_inc_ref u c s ≡ some (tt, t)
      → ((d : ℕ) → m d ≡ one c d + n d)
      → IsCounted n s
      → IsCounted m t
  client_inc_ref-IsCounted n m s t c e more h d =
      let (k, at, counts) = client_inc_ref-refs c s e in
      elim (Bool-cases (c == d)) [
        | inl same ↦
            let eq : c ≡ d = ground arith in
            ground (arith, counts d, at, h d, more d, ap (refs s) eq)
        | inr other ↦ ground (arith, counts d, h d, more d)
      ]

  pub client_dec_ref-IsCounted :
      (n m : ℕ → ℕ) (s t : State u) (c : ℕ)
      → client_dec_ref u c s ≡ some (tt, t)
      → ((d : ℕ) → n d ≡ one c d + m d)
      → IsCounted n s
      → IsCounted m t
  client_dec_ref-IsCounted n m s t c e less h d =
      let (k, at, counts) = client_dec_ref-refs c s e in
      elim (Bool-cases (c == d)) [
        | inl same ↦
            let eq : c ≡ d = ground arith in
            ground (arith, counts d, at, h d, less d, ap (refs s) eq)
        | inr other ↦ ground (arith, counts d, h d, less d)
      ]

  -- A held client was not freed.
  pub held-IsAlive : (n : ℕ → ℕ) (c : ℕ) (s : State u) → IsCounted n s → 0 < n c → IsAlive s c
  unfolding refs count_in
  held-IsAlive n c s h held = elim (Option-cases (get_elem? s.client_at c)) [
    | inl e ↦ ground (arith, h c)
    | inr (cell, e) ↦ elim (Option-cases cell) [
      | inl f ↦ ground (arith, h c)
      | inr (k, f) ↦ (k, e ∙ ap some f)
    ]
  ]

  -- What the network thread does to a client is one of these calls.
  pub add_new_client_to_fds-some :
      (junk : Slot) (c : ℕ) (p q : Poll) (s t : State u)
      → add_new_client_to_fds u junk (some c) (p, s) ≡ some (q, t)
      → (client_inc_ref u c s ≡ some (tt, t))
        × (x : Slot) × (x.client ≡ some c)
        × (is_closed x.fd ≡ false)
        × (put_slot x (reserve junk p) ≡ some q)
  unfolding add_new_client_to_fds is_closed
  add_new_client_to_fds-some junk c p q s t h = elim (Option-cases (client_inc_ref u c s)) [
    | inl e ↦ ground arith
    | inr ((_, s1), e) ↦ elim (Option-cases (load_client c s1)) [
      | inl n ↦ ground arith
      | inr ((k, s2), n) ↦
          let eq = (load_client-eq_some c s1 n).1 in
          let x : Slot = record {
            fd = pos k.socket;
            events = pollin + pollrdhup;
            revents = 0;
            client = some c;
          } in
          elim (Option-cases (put_slot x (reserve junk p))) [
            | inl f ↦ ground arith
            | inr (q', f) ↦ (ground (arith, eq), x, refl, refl, ground arith)
          ]
    ]
  ]

  pub hang_up-some :
      (i : ℕ) (x : Slot) (c : ℕ) (l l' : Loop u)
      → hang_up u i x c l ≡ some l'
      → (client_dec_ref u c l.shared ≡ some (tt, l'.shared))
        × (v : Slot) × (v.client ≡ none)
        × (l'.poll ≡ record l.poll { slots = set l.poll.slots i v })
        × (l'.threads ≡ l.threads)
  unfolding hang_up
  hang_up-some i x c l l' h = elim (Option-cases (client_dec_ref u c l.shared)) [
    | inl e ↦ ground arith
    | inr ((_, s), e) ↦ (
      ground arith,
      record x { fd = negsuc 0; events = 0; revents = 0; client = none },
      refl,
      ground arith,
      ground arith,
    )
  ]

  pub start_request-some :
      (i : ℕ) (x : Slot) (c : ℕ) (l l' : Loop u)
      → start_request u i x c l ≡ some l'
      → (client_inc_ref u c l.shared ≡ some (tt, l'.shared))
        × (l'.poll ≡ record l.poll {
          slots = set l.poll.slots i (record x { events = pollrdhup; revents = 0 });
        })
        × (l'.threads ≡ l.threads ++ c ∷ [])
  unfolding start_request
  start_request-some i x c l l' h = elim (Option-cases (client_inc_ref u c l.shared)) [
    | inl e ↦ ground arith
    | inr ((_, s), e) ↦ (ground arith, ground arith, ground arith)
  ]

  pub rehear-SameRefs :
      (x y : Slot) (c : ℕ) (s t : State u)
      → rehear u x c s ≡ some (y, t)
      → SameRefs s t × (y.client ≡ x.client) × (y.fd ≡ x.fd)
  unfolding rehear store_client
  rehear-SameRefs x y c s t h = elim (Option-cases (load_client c s)) [
    | inl e ↦ ground arith
    | inr ((k, s1), e) ↦
        let eq = (load_client-eq_some c s e).1 in
        elim (Bool-cases k.can_rehear) [
          | inl b ↦ (
            update-IsNeutral c (λ k. record k { can_rehear = false }) (λ k. refl) s tt t
                (ground arith),
            ground arith,
            ground arith,
          )
          | inr b ↦ (cells-SameRefs s t (ground arith), ground arith, ground arith)
        ]
  ]
