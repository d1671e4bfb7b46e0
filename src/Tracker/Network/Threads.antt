-- ===== src/Tracker/Network/Threads.antt =====
-- The network thread and the request threads, which share the clients: each slot and each thread
-- holds a reference. Their steps come in any order. The body of the loop of `handle_incoming_data` is
-- one step for each slot, and `handle_new_connection`, `clean_fds` and what `poll` reports are others;
-- a request thread serves its request, sets `can_rehear` and drops its reference in three steps. A
-- change of a reference count is never interrupted here, as Race is about what happens if it is.
use raiezau.Base.{
  ℕ, ◌+◌, ◌<◌, ◌≤◌, ◌≡◌, refl, sym, ap, ◌∙◌, true, Option, some, List, [], ◌∷◌, ◌++◌, arith, inr,
  get_elem?, get_elem?-set_self, get_elem?-lt,
}
use raiezau.Base.Bytes.{Bytes}
use raiezau.Cutil.Uthash.{Uthash}
use raiezau.Tracker.Client.{client_get_or_create, client_dec_ref}
use raiezau.Tracker.Client.Counts.{client_dec_ref_more}
use raiezau.Tracker.Client.Neutral.{count_in, refs_at, SameRefs, update-IsNeutral, refs}
use raiezau.Tracker.Env.{Posix, SockAddr}
use raiezau.Tracker.Protocol.{Handler}
use raiezau.Tracker.Protocol.References.{serve-SameRefs}
use raiezau.Tracker.Protocol.Serve.{serve}
use raiezau.Tracker.State.{State, Client, Cmd, ◌>>=◌, load_client, store_client}
use raiezau.Tracker.Network.Holders.{
  one, IsCounted, SameRefs-IsCounted, held-IsAlive, created-IsCounted, client_inc_ref-IsCounted,
  client_dec_ref-IsCounted, add_new_client_to_fds-some,
}
use raiezau.Tracker.Network.Incoming.{
  running, begun, serving, marking, leaving, Thread, incoming_slot-IsCounted,
}
use raiezau.Tracker.Network.Holding.{IsWell, slot_refs}
use raiezau.Tracker.Network.Polled.{put_slot_refs, clean_fds_refs, report, report_refs}
use raiezau.Tracker.Network.Settled.{IsAlive}
use raiezau.Tracker.Network.Slots.{
  Slot, Poll, Loop, handle_new_connection, incoming_slot, clean_fds,
}

running-one :
    (d c : ℕ) (ts us : List Thread) (t : Thread)
    → t.client ≡ c
    → running d (ts ++ t ∷ us) ≡ one c d + running d (ts ++ us)
unfolding running
running-one d c [] us t e = rw e refl
running-one d c (t' ∷ ts) us t e = omega (arith, running-one d c ts us t e)

module _ (u : Uthash ℕ) where
  -- The poll arrays, and the request threads that run.
  pub record System : Type 0 where
    pub shared : State u
    pub poll : Poll
    pub threads : List Thread

  -- How many slots in use and threads hold the client.
  abbrev pub holders : System → ℕ → ℕ
  holders y d = slot_refs y.poll d + running d y.threads

  -- `c->can_rehear = 1` of `handle_request`
  unfoldable pub mark : ℕ → Cmd u (Unit {0})
  unfolding load_client store_client
  mark c = do k ← load_client c; store_client c (record k { can_rehear = true })

  mark-SameRefs : (c : ℕ) (s t : State u) → mark c s ≡ some (tt, t) → SameRefs s t
  unfolding mark
  mark-SameRefs c s t = update-IsNeutral c (λ k. record k { can_rehear = true }) (λ k. refl) s tt t

  module _ (posix : Posix) (handlers : Uthash Handler) where
    pub data Step : System → System → Type 0 where
      accepts :
          (junk : Slot) (socket : ℕ) (addr : SockAddr) (p q : Poll) (c : ℕ) (s s1 t : State u)
          (threads : List Thread)
          → client_get_or_create u socket (some addr) s ≡ (some c, s1)
          → handle_new_connection u junk (some socket) (λ _. some addr) (p, s) ≡ some (q, t)
          → Step
              (record { shared = s; poll = p; threads = threads })
              (record { shared = t; poll = q; threads = threads })
      polls :
          (p : Poll) (revents : ℕ → ℕ) (s : State u) (threads : List Thread)
          → Step
              (record { shared = s; poll = p; threads = threads })
              (record { shared = s; poll = report revents p; threads = threads })
      handles :
          (i : ℕ) (x : Slot) (p : Poll) (s : State u) (l : Loop u) (threads : List Thread)
          → 1 ≤ i
          → i < p.nfds
          → get_elem? p.slots i ≡ some x
          → incoming_slot u i x (record { poll = p; shared = s; threads = [] }) ≡ some l
          → Step
              (record { shared = s; poll = p; threads = threads })
              (record { shared = l.shared; poll = l.poll; threads = begun l.threads threads })
      cleans :
          (p : Poll) (s : State u) (threads : List Thread)
          → Step
              (record { shared = s; poll = p; threads = threads })
              (record { shared = s; poll = clean_fds p; threads = threads })
      serves :
          (c : ℕ) (read : Option (ℕ × Bytes)) (s t : State u) (p : Poll) (ts us : List Thread)
          → serve u posix handlers c read s ≡ some (tt, t)
          → Step
              (record {
                shared = s;
                poll = p;
                threads = ts ++ record { client = c; phase = serving } ∷ us;
              })
              (record {
                shared = t;
                poll = p;
                threads = ts ++ record { client = c; phase = marking } ∷ us;
              })
      marks :
          (c : ℕ) (s t : State u) (p : Poll) (ts us : List Thread)
          → mark c s ≡ some (tt, t)
          → Step
              (record {
                shared = s;
                poll = p;
                threads = ts ++ record { client = c; phase = marking } ∷ us;
              })
              (record {
                shared = t;
                poll = p;
                threads = ts ++ record { client = c; phase = leaving } ∷ us;
              })
      leaves :
          (c : ℕ) (s t : State u) (p : Poll) (ts us : List Thread)
          → client_dec_ref u c s ≡ some (tt, t)
          → Step
              (record {
                shared = s;
                poll = p;
                threads = ts ++ record { client = c; phase = leaving } ∷ us;
              })
              (record { shared = t; poll = p; threads = ts ++ us })

    pub data Reach (y : System) : System → Type 0 where
      here : Reach y y
      next : {z w : System} → Reach y z → Step z w → Reach y w

    record IsHeld (y : System) : Type 0 where
      well : IsWell y.poll
      counted : IsCounted (holders y) y.shared

    -- a thread goes from one phase to the next
    phase_same :
        (c d : ℕ) (t t' : Thread) (ts us : List Thread)
        → t.client ≡ c
        → t'.client ≡ c
        → running d (ts ++ t' ∷ us) ≡ running d (ts ++ t ∷ us)
    phase_same c d t t' ts us e e' = running-one d c ts us t' e' ∙ sym (running-one d c ts us t e)

    Step-IsHeld : {y z : System} → Step y z → IsHeld y → IsHeld z
    unfolding handle_new_connection
    Step-IsHeld (accepts junk socket addr p q c s s1 t threads e e') h =
        let (raised, x, has, opened, put) =
          add_new_client_to_fds-some junk c p q s1 t (rw (handle_new_connection, e) at e') in
        let (well, more) = put_slot_refs junk x p q c h.well has opened put in
        record {
          well = well;
          counted =
              client_inc_ref-IsCounted _ _ s1 t c raised (λ d. omega (arith, more d))
                (created-IsCounted _ s s1 socket addr c e h.counted);
        }
    Step-IsHeld (polls p revents s threads) h =
        let (well, same) = report_refs revents p h.well in
        record {
          well = well;
          counted = SameRefs-IsCounted _ _ s s (λ d. refl) (λ d. omega (arith, same d)) h.counted;
        }
    Step-IsHeld (handles i x p s l threads least lt at e) h =
        let (well, counted) = incoming_slot-IsCounted i x p s l threads h.well lt at h.counted e in
        record { well = well; counted = counted }
    Step-IsHeld (cleans p s threads) h =
        let (well, same) = clean_fds_refs p h.well in
        record {
          well = well;
          counted = SameRefs-IsCounted _ _ s s (λ d. refl) (λ d. omega (arith, same d)) h.counted;
        }
    Step-IsHeld (serves c read s t p ts us e) h = record {
      well = h.well;
      counted =
          SameRefs-IsCounted _ _ s t (serve-SameRefs posix handlers c read s t e)
            (λ d. ap (λ n. slot_refs p d + n) (phase_same c d _ _ ts us refl refl)) h.counted;
    }
    Step-IsHeld (marks c s t p ts us e) h = record {
      well = h.well;
      counted =
          SameRefs-IsCounted _ _ s t (mark-SameRefs c s t e)
            (λ d. ap (λ n. slot_refs p d + n) (phase_same c d _ _ ts us refl refl)) h.counted;
    }
    Step-IsHeld (leaves c s t p ts us e) h = record {
      well = h.well;
      counted =
          client_dec_ref-IsCounted _ _ s t c e
            (λ d.
              let less = running-one d c ts us (record { client = c; phase = leaving }) refl in
              omega (arith, less))
            h.counted;
    }

    Reach-IsHeld : {y z : System} → IsHeld y → Reach y z → IsHeld z
    Reach-IsHeld h here = h
    Reach-IsHeld h (next r st) = Step-IsHeld st (Reach-IsHeld h r)

    -- A tracker that listens, has no clients and runs no threads. What stands beside the listener in
    -- `clients`, which is never read, is NULL.
    pub record IsNew (y : System) : Type 0 where
      pub cells : y.shared.client_at ≡ []
      pub well : IsWell y.poll
      pub slots : (d : ℕ) → slot_refs y.poll d ≡ 0
      pub idle : y.threads ≡ []

    IsNew-IsHeld : {y : System} → IsNew y → IsHeld y
    unfolding refs count_in running
    IsNew-IsHeld {y} h = record {
      well = h.well;
      counted = λ d.
          let threads : running d y.threads ≡ 0 = ap (running d) h.idle in
          inr (ap (λ l. count_in (get_elem? l d)) h.cells, omega (arith, h.slots d, threads));
    }

    -- In a tracker that starts without clients, after any steps of the network thread and of the
    -- request threads, in any order, that return, where no two changes of a reference count overlap:
    -- a client that is in a slot in use of the poll arrays, or that a request thread works for, was
    -- not freed, and its reference count is the number of these slots and threads. If there is
    -- another one, then `client_dec_ref` returns, and the client is still there for the others. A
    -- closed slot in use has no client.
    pub Reach-IsAlive :
        {y z : System} (c : ℕ)
        → IsNew y
        → Reach y z
        → 0 < holders z c
        → (k : Client) × (get_elem? z.shared.client_at c ≡ some (some k))
          × (k.ref_count ≡ holders z c)
          × (1 < k.ref_count
              → (t : State u) × (client_dec_ref u c z.shared ≡ some (tt, t)) × IsAlive t c)
          × IsWell z.poll
    Reach-IsAlive {y} {z} c new r e =
        let held = Reach-IsHeld (IsNew-IsHeld new) r in
        let (k, at) = held-IsAlive (holders z) c z.shared held.counted e in
        (
          k,
          at,
          ground (arith, held.counted c, refs_at c z.shared at),
          λ more. (
            _,
            client_dec_ref_more c z.shared k at more,
            (_, get_elem?-set_self z.shared.client_at c _ (get_elem?-lt z.shared.client_at c at)),
          ),
          held.well,
        )
