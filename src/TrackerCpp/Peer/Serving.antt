-- ===== src/TrackerCpp/Peer/Serving.antt =====
-- What the lines of a peer do to all peers: an announced peer has a port, and a peer that makes more
-- than five errors in a row does not stay.
use mathlib.Core.Path.{subst}
use raiezau.Base.{
  ℕ, ◌+◌, ◌%◌, ◌^◌, ◌≤◌, ◌≡◌, ◌≢◌, refl, sym, ap, ◌∙◌, Bool, true, not, ltb, some, [], ◌∷◌, ◌++◌,
  ◌==◌, arith, Bool-cases, Option-cases, inl, inr, get_elem?, set, get_elem?-set_self,
  get_elem?-set_ne, get_elem?-lt,
}
use raiezau.Base.Bytes.{Bytes, codes}
use raiezau.Cutil.HashTable.Keys.{lookup}
use raiezau.TrackerCpp.Peer.{
  Peer, Server, Ending, returns, throws, throws_std, Act, pure, write_text,
}
use raiezau.TrackerCpp.Peer.Follows.{
  IsPorted, Follows, Follows-refl, Evolves, IsMild, update-steps, same_peer,
}
use raiezau.TrackerCpp.Peer.Keeping.{
  handle_update-IsMild, handle_look-IsMild, handle_getfile-IsMild,
}
use raiezau.TrackerCpp.Peer.Ports.{handle_announce-IsMild}
use raiezau.TrackerCpp.Peer.Reading.{
  Request, announce, update, look, getfile, call_handler, s_handler_map, count_error, reset_errors,
  guarded, serve_line, max_seq_error_count, send_error_notice,
}
use raiezau.TrackerCpp.Text.{Stream, stream, no_text, read_word, before_first}

call_handler-IsMild : (r : Request) (p : ℕ) (line : Stream) → IsMild (call_handler r p line)
unfolding call_handler
call_handler-IsMild announce = handle_announce-IsMild
call_handler-IsMild update = handle_update-IsMild
call_handler-IsMild look = handle_look-IsMild
call_handler-IsMild getfile = handle_getfile-IsMild

-- What a line leaves of a peer.
pub record Served (stays : Bool) (k j : Peer) : Type 0 where
  pub buffer : j.read_buf ≡ k.read_buf
  pub ported : IsPorted k → IsPorted j
  pub errors : stays ≡ true → k.seq_error_count ≤ 5 → j.seq_error_count ≤ 5

abbrev pub Serves : Bool → Server → Server → Type 0
Serves stays s t =
    (q : ℕ) (k : Peer)
    → get_elem? s.peers q ≡ some (some k)
    → (j : Peer) × (get_elem? t.peers q ≡ some (some j)) × Served stays k j

-- A command that ends in a `bool`, after which the peers are what `Serves` says.
abbrev IsServing : Act Bool → Type 0
IsServing m =
    (s : Server) (o : Ending Bool) (t : Server)
    → m s ≡ some (o, t)
    → (stays : Bool) × (o ≡ returns stays) × Serves stays s t

Follows-Served : (stays : Bool) (k j : Peer) → Follows k j → Served stays k j
Follows-Served stays k j f = record {
  buffer = f.buffer;
  ported = f.ported;
  errors = λ _ h. omega (arith, f.errors);
}

Evolves-Serves : (stays : Bool) (s t w : Server) → Evolves s t → Serves stays t w → Serves stays s w
Evolves-Serves stays s t w a b q k e =
    let (j, at, f) = a q k e in
    let (i, at', g) = b q j at in
    (
      i,
      at',
      record {
        buffer = g.buffer ∙ f.buffer;
        ported = λ h. g.ported (f.ported h);
        errors = λ h le. g.errors h (omega (arith, f.errors));
      },
    )

-- a peer's count is stored
counted-Serves :
    (stays : Bool) (s : Server) (p n : ℕ) (k : Peer)
    → get_elem? s.peers p ≡ some (some k)
    → (stays ≡ true → n ≤ 5)
    → Serves stays s (record s { peers = set s.peers p (some (record k { seq_error_count = n })) })
counted-Serves stays s p n k at low q i e = elim (Bool-cases (p == q)) [
  | inl same ↦
      let eq : p ≡ q = ground arith in
      let one : k ≡ i = same_peer s p k i at (ap (get_elem? s.peers) eq ∙ e) in
      (
        record k { seq_error_count = n },
        ap (get_elem? (set s.peers p _)) (sym eq)
            ∙ get_elem?-set_self s.peers p _ (get_elem?-lt s.peers p at),
        subst (λ x. Served stays x (record k { seq_error_count = n })) one
            (record { buffer = refl; ported = λ h. h; errors = λ h le. low h }),
      )
  | inr other ↦
      let ne : p ≢ q = λ eq. ground arith in
      (i, get_elem?-set_ne s.peers p q _ ne ∙ e, Follows-Served stays i i (Follows-refl i))
]

count_error-IsServing : (p : ℕ) (notice : Bytes) → IsServing (count_error p notice)
unfolding count_error send_error_notice write_text
count_error-IsServing p notice s o t h =
    let s1 : Server = record s {
      written = s.written ++ (p, codes "error: " ++ (notice ++ codes "\n")) ∷ [];
    } in
    let g : Peer → Peer = λ k. record k { seq_error_count = (k.seq_error_count + 1) % 2 ^ 32 } in
    let (k, at, e) =
      update-steps p g
        (λ k. pure (not (ltb max_seq_error_count ((k.seq_error_count + 1) % 2 ^ 32)))) s1 h in
    let n = (k.seq_error_count + 1) % 2 ^ 32 in
    (
      not (ltb 5 n),
      ground arith,
      (let same : (record s1 { peers = set s.peers p (some (g k)) }) ≡ t = ground arith in
          subst (Serves (not (ltb 5 n)) s) same
            (counted-Serves (not (ltb 5 n)) s1 p n k at (λ stays. ground arith))),
    )

reset_errors-IsServing : (p : ℕ) → IsServing (reset_errors p)
unfolding reset_errors
reset_errors-IsServing p s o t h =
    let g : Peer → Peer = λ k. record k { seq_error_count = 0 } in
    let (k, at, e) = update-steps p g (λ k. pure true) s h in
    let same : (record s { peers = set s.peers p (some (g k)) }) ≡ t = ground arith in
    (
      true,
      ground arith,
      subst (Serves true s) same (counted-Serves true s p 0 k at (λ stays. omega arith)),
    )

module _ (what : Bytes) where
  guarded-IsServing : (p : ℕ) (m : Act (Unit {0})) → IsMild m → IsServing (guarded what p m)
  unfolding guarded
  guarded-IsServing p m mild s o t h = elim (Option-cases (m s)) [
    | inl e ↦ ground arith
    | inr ((returns _, s'), e) ↦
        let (b, ret, f) = reset_errors-IsServing p s' o t (ground arith) in
        (b, ret, Evolves-Serves b s s' t (mild s _ s' e) f)
    | inr ((throws text, s'), e) ↦
        let (b, ret, f) = count_error-IsServing p (before_first 0 text) s' o t (ground arith) in
        (b, ret, Evolves-Serves b s s' t (mild s _ s' e) f)
    | inr ((throws_std, s'), e) ↦
        let (b, ret, f) = count_error-IsServing p what s' o t (ground arith) in
        (b, ret, Evolves-Serves b s s' t (mild s _ s' e) f)
  ]

  pub serve_line-IsServing : (p : ℕ) (line : Bytes) → IsServing (serve_line what p line)
  unfolding serve_line
  serve_line-IsServing p line s o t h =
      let (keyword, rest) = read_word (stream line) [] in
      elim (Bool-cases (no_text keyword)) [
        | inl e ↦
            let e' : pure true s ≡ some (o, t) = rw (serve_line, e) at h in
            let same : s ≡ t = ground arith in
            (
              true,
              ground arith,
              λ q k at. (
                k,
                ap (λ x. get_elem? x.peers q) (sym same) ∙ at,
                Follows-Served true k k (Follows-refl k),
              ),
            )
        | inr e ↦ elim (Option-cases (lookup keyword s_handler_map)) [
          | inl n ↦
              count_error-IsServing p (codes "unexpected keyword '" ++ (keyword ++ codes "'")) s o t
                (rw (serve_line, e, n) at h)
          | inr (r, n) ↦
              guarded-IsServing p (call_handler r p rest) (call_handler-IsMild r p rest) s o t
                (rw (serve_line, e, n) at h)
        ]
      ]
