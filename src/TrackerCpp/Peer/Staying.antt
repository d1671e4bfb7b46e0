-- ===== src/TrackerCpp/Peer/Staying.antt =====
-- `readHandler`, whatever is in the buffer.
use mathlib.Core.Path.{subst}
use raiezau.Base.{
  ℕ, zero, suc, ◌≤◌, ◌≡◌, refl, sym, ap, ◌∙◌, Bool, true, false, some, ◌==◌, arith, if◌then◌else◌,
  Bool-cases, Option-cases, inl, inr, get_elem?, set, ◌≢◌, get_elem?-set_self, get_elem?-set_ne,
  get_elem?-lt,
}
use raiezau.Base.Bytes.{Bytes}
use raiezau.TrackerCpp.CircularBuffer.{CircularBuffer, have_line, have_word, read_until}
use raiezau.TrackerCpp.Peer.{Peer, Server, Ending, returns, Act, pure, ◌>>=◌, store_peer}
use raiezau.TrackerCpp.Peer.Follows.{IsPorted, load-steps, same_peer}
use raiezau.TrackerCpp.Peer.Reading.{fault, serve_line, read_line, read_handler}
use raiezau.TrackerCpp.Peer.Serving.{Serves, serve_line-IsServing}

-- What `readHandler` leaves of a peer.
pub record Kept (stays : Bool) (k j : Peer) : Type 0 where
  pub ported : IsPorted k → IsPorted j
  pub errors : stays ≡ true → k.seq_error_count ≤ 5 → j.seq_error_count ≤ 5

abbrev pub Keeps : Bool → Server → Server → Type 0
Keeps stays s t =
    (q : ℕ) (k : Peer)
    → get_elem? s.peers q ≡ some (some k)
    → (j : Peer) × (get_elem? t.peers q ≡ some (some j)) × Kept stays k j

Keeps-refl : (stays : Bool) (s : Server) → Keeps stays s s
Keeps-refl stays s q k at = (k, at, record { ported = λ h. h; errors = λ _ h. h })

-- A part of `readHandler`.
abbrev IsKeeping : Act Bool → Type 0
IsKeeping m =
    (s : Server) (o : Ending Bool) (t : Server)
    → m s ≡ some (o, t)
    → (stays : Bool) × (o ≡ returns stays) × Keeps stays s t

pure-IsKeeping : (b : Bool) → IsKeeping (pure b)
pure-IsKeeping b s o t h =
    let same : s ≡ t = ground arith in (b, ground arith, subst (Keeps b s) same (Keeps-refl b s))

fault-IsKeeping : IsKeeping fault
unfolding fault
fault-IsKeeping s o t h = ground arith

buffered-Keeps :
    (stays : Bool) (s t : Server) (p : ℕ) (k : Peer) (b : CircularBuffer)
    → get_elem? s.peers p ≡ some (some k)
    → Keeps stays (record s { peers = set s.peers p (some (record k { read_buf = b })) }) t
    → Keeps stays s t
buffered-Keeps stays s t p k b at later q i e = elim (Bool-cases (p == q)) [
  | inl same ↦
      let eq : p ≡ q = ground arith in
      let one : k ≡ i = same_peer s p k i at (ap (get_elem? s.peers) eq ∙ e) in
      let (j, at', f) =
        later q (record k { read_buf = b })
          (ap (get_elem? (set s.peers p _)) (sym eq)
            ∙ get_elem?-set_self s.peers p _ (get_elem?-lt s.peers p at)) in
      (j, at', subst (λ x. Kept stays x j) one (record { ported = f.ported; errors = f.errors }))
  | inr other ↦
      let ne : p ≢ q = λ eq. ground arith in later q i (get_elem?-set_ne s.peers p q _ ne ∙ e)
]

Serves-Keeps : (stays : Bool) (s t w : Server) → Serves true s t → Keeps stays t w → Keeps stays s w
Serves-Keeps stays s t w a b q k e =
    let (j, at, f) = a q k e in
    let (i, at', g) = b q j at in
    (
      i,
      at',
      record {
        ported = λ h. g.ported (f.ported h);
        errors = λ h le. g.errors h (f.errors refl le);
      },
    )

ended-Keeps : (s t : Server) → Serves false s t → Keeps false s t
ended-Keeps s t a q k e =
    let (j, at, f) = a q k e in (j, at, record { ported = f.ported; errors = λ h le. ground arith })

module _ (what : Bytes) where
  -- what follows `readUntil`
  line-IsKeeping :
      (p : ℕ) (line : Bytes) (later : Act Bool)
      → IsKeeping later
      → IsKeeping (serve_line what p line >>= λ stays. if stays then later else pure false)
  line-IsKeeping p line later keeps s o t h = elim (Option-cases (serve_line what p line s)) [
    | inl e ↦ ground arith
    | inr ((r, s'), e) ↦
        let (b, ret, f) = serve_line-IsServing what p line s r s' e in
        elim (Bool-cases b) [
          | inl on ↦
              let (stays, ret', g) = keeps s' o t (ground arith) in
              (stays, ret', Serves-Keeps stays s s' t (subst (λ x. Serves x s s') on f) g)
          | inr off ↦
              let same : s' ≡ t = ground arith in
              (
                false,
                ground arith,
                subst (Keeps false s) same (ended-Keeps s s' (subst (λ x. Serves x s s') off f)),
              )
        ]
  ]

  read_line-Keeps :
      (later : Act Bool) (p : ℕ) (k : Peer) (s : Server) (o : Ending Bool) (t : Server)
      → IsKeeping later
      → get_elem? s.peers p ≡ some (some k)
      → read_line what later p k s ≡ some (o, t)
      → (stays : Bool) × (o ≡ returns stays) × Keeps stays s t
  unfolding read_line fault store_peer
  read_line-Keeps later p k s o t keeps at h = elim (Option-cases (have_line k.read_buf)) [
    | inl e ↦ fault-IsKeeping s o t (rw (read_line, e) at h)
    | inr (false, e) ↦ elim (Option-cases (have_word k.read_buf)) [
      | inl e' ↦ fault-IsKeeping s o t (rw (read_line, e, e') at h)
      | inr (word, e') ↦ pure-IsKeeping _ s o t (rw (read_line, e, e') at h)
    ]
    | inr (true, e) ↦ elim (Option-cases (read_until b'\n' k.read_buf)) [
      | inl e' ↦ fault-IsKeeping s o t (rw (read_line, e, e') at h)
      | inr ((line, b), e') ↦
          let s1 : Server = record s { peers = set s.peers p (some (record k { read_buf = b })) } in
          let (stays, ret, f) =
            line-IsKeeping p line later keeps s1 o t (rw (read_line, e, e') at h) in
          (stays, ret, buffered-Keeps stays s t p k b at f)
    ]
  ]

  -- Whatever is in the buffers, if `readHandler` returns, then it throws nothing, no peer is gone, each
  -- peer that had announced itself and had a port from 1 to 65535 still has one, so does each peer that
  -- announces itself now, and if the connection stays, no peer that had at most five errors in a row
  -- has more.
  pub read_handler-Keeps :
      (rounds p : ℕ) (s : Server) (o : Ending Bool) (t : Server)
      → read_handler what rounds p s ≡ some (o, t)
      → (stays : Bool) × (o ≡ returns stays) × Keeps stays s t
  unfolding read_handler fault
  read_handler-Keeps zero p s o t h =
      let (k, at, e) = load-steps p _ s h in
      elim (Bool-cases (k.read_buf.size == 0)) [
        | inl z ↦ pure-IsKeeping true s o t (rw z at e)
        | inr z ↦ ground arith
      ]
  read_handler-Keeps (suc rounds) p s o t h =
      let (k, at, e) = load-steps p _ s h in
      elim (Bool-cases (k.read_buf.size == 0)) [
        | inl z ↦ pure-IsKeeping true s o t (rw z at e)
        | inr z ↦
            read_line-Keeps (read_handler what rounds p) p k s o t (read_handler-Keeps rounds p) at
              (rw z at e)
      ]
