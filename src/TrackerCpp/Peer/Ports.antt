-- ===== src/TrackerCpp/Peer/Ports.antt =====
-- An announced peer has a port, and no peer stays that makes more than five errors in a row.
use mathlib.Core.Path.{subst}
use raiezau.Base.{
  ℕ, zero, suc, ◌≡◌, refl, true, not, ◌||◌, some, arith, if◌then◌else◌, Bool-cases, Option-cases,
  inl, inr, get_elem?, set, get_elem?-set_self, get_elem?-lt,
}
use raiezau.Base.Bytes.{Bytes, codes, str_eq}
use raiezau.Base.Int.{pos, negsuc}
use raiezau.TrackerCpp.Peer.{
  Peer, Server, Ending, returns, throws, throws_std, Act, pure, ◌>>=◌, ◌>>◌, throw, load_peer,
  store_peer, send_ok, Words, words, bracketed, port_of, parse_announce_seed, parse_announce_leech,
}
use raiezau.TrackerCpp.Peer.Follows.{
  InRange, Follows, Evolves, Evolves-trans, stored-Evolves, IsMild, pure-IsMild, throw-IsMild,
  >>=-IsMild, load_peer-IsMild, same_peer, update-steps,
}
use raiezau.TrackerCpp.Peer.Keeping.{
  parse_announce_seed-IsMild, parse_announce_leech-IsMild, then_pure-IsMild, send_ok-IsMild,
}
use raiezau.TrackerCpp.Peer.Requests.{
  listen_round, announce_round, announce_loop, handle_announce, unexpected,
}
use raiezau.TrackerCpp.Text.{Stream, read_word, stoi}

port_of-InRange : (argument : Bytes) {n : ℕ} → port_of argument ≡ some n → InRange n
unfolding port_of
port_of-InRange argument h = elim (Option-cases (stoi argument)) [
  | inl e ↦ ground arith
  | inr (pos n, e) ↦ ground arith
  | inr (negsuc n, e) ↦ ground arith
]

-- The peer has a port.
abbrev PortAt : Server → ℕ → Type 0
PortAt s p = (k : Peer) × (get_elem? s.peers p ≡ some (some k)) × InRange k.listening_port

Evolves-PortAt : (s t : Server) (p : ℕ) → Evolves s t → PortAt s p → PortAt t p
Evolves-PortAt s t p e (k, at, h) = let (j, at', f) = e p k at in (j, at', f.port h)

-- What announce keeps until it has read all its words.
record Listened (p : ℕ) (w : Words) (s : Server) (o : Ending Words) (t : Server) : Type 0 where
  evolves : Evolves s t
  port : (v : Words) → o ≡ returns v → (w.listen ≡ true → PortAt s p) → v.listen ≡ true → PortAt t p

-- a command that leaves `listen` as it is
mild-Listened :
    (m : Act Words) (p : ℕ) (w : Words) (s : Server) (o : Ending Words) (t : Server)
    → IsMild m
    → m s ≡ some (o, t)
    → ((v : Words) → o ≡ returns v → v.listen ≡ true → w.listen ≡ true)
    → Listened p w s o t
mild-Listened m p w s o t h e same = record {
  evolves = h s o t e;
  port = λ v ret before now. Evolves-PortAt s t p (h s o t e) (before (same v ret now));
}

port-Follows : (k : Peer) (n : ℕ) → InRange n → Follows k (record k { listening_port = n })
port-Follows k n h = record {
  buffer = refl;
  address = refl;
  errors = refl;
  port = λ _. h;
  ported = λ _ _. h;
}

-- An exception ends the words.
thrown-Listened :
    (text : Bytes) (p : ℕ) (w : Words) (s : Server) (o : Ending Words) (t : Server)
    → throw text s ≡ some (o, t)
    → Listened p w s o t
thrown-Listened text p w s o t h =
    mild-Listened (throw text) p w s o t (throw-IsMild text) h (λ v ret now. ground arith)

listen_round-Listened :
    (p : ℕ) (w : Words) (line : Stream) (s : Server) (o : Ending Words) (t : Server)
    → listen_round p w line s ≡ some (o, t)
    → Listened p w s o t
unfolding listen_round
listen_round-Listened p w line s o t h =
    let (argument, rest) = read_word line w.argument in
    elim (Option-cases (port_of argument)) [
      | inl e ↦
          thrown-Listened (codes "invalid listening port") p w s o t (rw (listen_round, e) at h)
      | inr (n, e) ↦
          let next : Words = record w { line = rest; argument = argument; listen = true } in
          let g : Peer → Peer = λ k. record k { listening_port = n } in
          let range = port_of-InRange argument e in
          let (k, at, e') = update-steps p g (λ k. pure next) s (rw (listen_round, e) at h) in
          let s1 : Server = record s { peers = set s.peers p (some (g k)) } in
          let same : s1 ≡ t = ground arith in
          record {
            evolves =
                subst (Evolves s) same (stored-Evolves s p k (g k) at (port-Follows k n range));
            port = λ v ret before now.
                subst (λ x. PortAt x p) same
                  (
                    g k,
                    get_elem?-set_self s.peers p (some (g k)) (get_elem?-lt s.peers p at),
                    range,
                  );
          }
    ]

-- a list is read, and the words go on
then_pure-Listened :
    (m : Act (Unit {0})) (p : ℕ) (w v : Words) (s : Server) (o : Ending Words) (t : Server)
    → IsMild m
    → v.listen ≡ w.listen
    → (m >> pure v) s ≡ some (o, t)
    → Listened p w s o t
then_pure-Listened m p w v s o t mild same h =
    mild-Listened (m >> pure v) p w s o t (then_pure-IsMild m v mild) h λ v' ret now.
      elim (Option-cases (m s)) [
        | inl e ↦ ground arith
        | inr ((returns _, s'), e) ↦ ground arith
        | inr ((throws text, s'), e) ↦ ground arith
        | inr ((throws_std, s'), e) ↦ ground arith
      ]

announce_round-Listened :
    (p : ℕ) (w : Words) (s : Server) (o : Ending Words) (t : Server)
    → announce_round p w s ≡ some (o, t)
    → Listened p w s o t
unfolding announce_round
announce_round-Listened p w s o t h =
    let (keyword, line) = read_word w.line w.keyword in
    let (argument, rest) = bracketed line w.argument in
    elim (Bool-cases (str_eq keyword (codes "listen"))) [
      | inl e ↦
          let l = listen_round-Listened p (record w { keyword = keyword }) line s o t (rw e at h) in
          record { evolves = l.evolves; port = l.port }
      | inr e ↦ elim (Bool-cases (str_eq keyword (codes "seed"))) [
        | inl e' ↦
            then_pure-Listened (parse_announce_seed p argument) p w _ s o t
              (parse_announce_seed-IsMild p argument) refl (rw (e, e') at h)
        | inr e' ↦ elim (Bool-cases (str_eq keyword (codes "leech"))) [
          | inl f ↦
              then_pure-Listened (parse_announce_leech p argument) p w _ s o t
                (parse_announce_leech-IsMild p argument) refl (rw (e, e', f) at h)
          | inr f ↦ thrown-Listened (unexpected keyword) p w s o t (rw (e, e', f) at h)
        ]
      ]
    ]

announce_loop-Listened :
    (p rounds : ℕ) (w : Words) (s : Server) (o : Ending Words) (t : Server)
    → announce_loop p rounds w s ≡ some (o, t)
    → Listened p w s o t
unfolding announce_loop
announce_loop-Listened p zero w s o t h =
    mild-Listened (pure w) p w s o t (pure-IsMild w) h (λ v ret now. ground arith)
announce_loop-Listened p (suc rounds) w s o t h = elim (Option-cases (announce_round p w s)) [
  | inl e ↦ ground arith
  | inr ((returns v, s'), e) ↦
      let first = announce_round-Listened p w s (returns v) s' e in
      let rest = announce_loop-Listened p rounds v s' o t (ground arith) in
      record {
        evolves = Evolves-trans s s' t first.evolves rest.evolves;
        port = λ x ret before now. rest.port x ret (λ l. first.port v refl before l) now;
      }
  | inr ((throws text, s'), e) ↦
      let same : s' ≡ t = ground arith in
      let first = announce_round-Listened p w s (throws text) s' e in
      record {
        evolves = subst (Evolves s) same first.evolves;
        port = λ x ret before now. ground arith;
      }
  | inr ((throws_std, s'), e) ↦
      let same : s' ≡ t = ground arith in
      let first = announce_round-Listened p w s throws_std s' e in
      record {
        evolves = subst (Evolves s) same first.evolves;
        port = λ x ret before now. ground arith;
      }
]

-- the end of announce, once its words are read
finish : ℕ → Words → Act (Unit {0})
unfolding load_peer store_peer send_ok
finish p w =
    if not w.listen || (not w.seed || not w.leech)
    then throw (codes "invalid request")
    else do k ← load_peer p; store_peer p (record k { announced = true }); send_ok p

finish-Evolves :
    (p : ℕ) (w : Words) (s : Server) (o : Ending (Unit {0})) (t : Server)
    → (w.listen ≡ true → PortAt s p)
    → finish p w s ≡ some (o, t)
    → Evolves s t
unfolding finish
finish-Evolves p w s o t port h = elim (Bool-cases (not w.listen || (not w.seed || not w.leech))) [
  | inl e ↦ throw-IsMild (codes "invalid request") s o t (rw (finish, e) at h)
  | inr e ↦
      let g : Peer → Peer = λ k. record k { announced = true } in
      let (k, at, e') = update-steps p g (λ k. send_ok p) s (rw (finish, e) at h) in
      let (j, at', range) = port (ground arith) in
      let same = same_peer s p j k at' at in
      let s1 : Server = record s { peers = set s.peers p (some (g k)) } in
      Evolves-trans s s1 t
        (stored-Evolves s p k (g k) at (record {
          buffer = refl;
          address = refl;
          errors = refl;
          port = λ r. r;
          ported = λ _ _. subst (λ x. InRange x.listening_port) same range;
        }))
        (send_ok-IsMild p s1 o t e')
]

pub handle_announce-IsMild : (p : ℕ) (line : Stream) → IsMild (handle_announce p line)
unfolding handle_announce finish
handle_announce-IsMild p line = >>=-IsMild (load_peer p) _ (load_peer-IsMild p) λ k.
    elim (Bool-cases k.announced) [
      | inl e ↦ rw e (throw-IsMild (codes "already announced"))
      | inr e ↦ rw e λ s o t h. elim (Option-cases (announce_loop p 3 (words line) s)) [
        | inl n ↦ ground arith
        | inr ((returns w, s'), n) ↦
            let read = announce_loop-Listened p 3 (words line) s (returns w) s' n in
            Evolves-trans s s' t read.evolves (
              finish-Evolves p w s' o t (λ l. read.port w refl (λ l'. ground arith) l)
                (ground arith))
        | inr ((throws text, s'), n) ↦
            let same : s' ≡ t = ground arith in
            subst (Evolves s) same
              (announce_loop-Listened p 3 (words line) s (throws text) s' n).evolves
        | inr ((throws_std, s'), n) ↦
            let same : s' ≡ t = ground arith in
            subst (Evolves s) same
              (announce_loop-Listened p 3 (words line) s throws_std s' n).evolves
      ]
    ]
