-- ===== src/TrackerCpp/Peer/Follows.antt =====
-- What the requests of any peer leave of every peer, and the commands that do so.
use mathlib.Core.Path.{subst}
use raiezau.Base.{
  ℕ, ◌≤◌, ◌≡◌, ◌≢◌, refl, sym, ap, ◌∙◌, true, Option, none, some, ◌==◌, arith, get_elem?, set,
  Bool-cases, Option-cases, inl, inr, get_elem?-set_self, get_elem?-set_ne, get_elem?-lt,
}
use raiezau.Base.Bytes.{Bytes}
use raiezau.TrackerCpp.FileMgr.{File}
use raiezau.TrackerCpp.Peer.{
  Peer, Server, Ending, returns, throws, throws_std, Act, pure, ◌>>=◌, ◌>>◌, throw, load_peer,
  store_peer, load_file, store_file, write_text,
}

abbrev pub InRange : ℕ → Type 0
InRange port = (1 ≤ port) × (port ≤ 65535)

-- A peer that has announced itself has a port.
abbrev pub IsPorted : Peer → Type 0
IsPorted k = k.announced ≡ true → InRange k.listening_port

-- A peer keeps its buffer, its address and its count of errors, and its port stays a port.
pub record Follows (k j : Peer) : Type 0 where
  pub buffer : j.read_buf ≡ k.read_buf
  pub address : j.addr ≡ k.addr
  pub errors : j.seq_error_count ≡ k.seq_error_count
  pub port : InRange k.listening_port → InRange j.listening_port
  pub ported : IsPorted k → IsPorted j

pub Follows-refl : (k : Peer) → Follows k k
Follows-refl k = record {
  buffer = refl;
  address = refl;
  errors = refl;
  port = λ h. h;
  ported = λ h. h;
}

Follows-trans : (k j i : Peer) → Follows k j → Follows j i → Follows k i
Follows-trans k j i a b = record {
  buffer = b.buffer ∙ a.buffer;
  address = b.address ∙ a.address;
  errors = b.errors ∙ a.errors;
  port = λ h. b.port (a.port h);
  ported = λ h. b.ported (a.ported h);
}

pub load_file_lem :
    (f : ℕ) (s : Server) {x : File}
    → get_elem? s.files.files f ≡ some x
    → load_file f s ≡ some (returns x, s)
unfolding load_file
load_file_lem f s e = rw (load_file, e) refl

-- No peer is deleted, and each follows from what it was.
abbrev pub Evolves : Server → Server → Type 0
Evolves s t =
    (p : ℕ) (k : Peer)
    → get_elem? s.peers p ≡ some (some k)
    → (j : Peer) × (get_elem? t.peers p ≡ some (some j)) × Follows k j

pub Evolves-trans : (s t w : Server) → Evolves s t → Evolves t w → Evolves s w
Evolves-trans s t w a b p k e =
    let (j, at, f) = a p k e in let (i, at', g) = b p j at in (i, at', Follows-trans k j i f g)

pub peers-Evolves : (s t : Server) → t.peers ≡ s.peers → Evolves s t
peers-Evolves s t same p k e = (k, ap (λ l. get_elem? l p) same ∙ e, Follows-refl k)

peer_in : Peer → Option (Option Peer) → Peer
peer_in k none = k
peer_in k (some none) = k
peer_in k (some (some j)) = j

-- A cell has one peer.
pub same_peer :
    (s : Server) (p : ℕ) (k j : Peer)
    → get_elem? s.peers p ≡ some (some k)
    → get_elem? s.peers p ≡ some (some j)
    → k ≡ j
unfolding peer_in
same_peer s p k j e e' = ap (peer_in k) (sym e ∙ e')

pub stored-Evolves :
    (s : Server) (p : ℕ) (k j : Peer)
    → get_elem? s.peers p ≡ some (some k)
    → Follows k j
    → Evolves s (record s { peers = set s.peers p (some j) })
unfolding peer_in
stored-Evolves s p k j at f q i e = elim (Bool-cases (p == q)) [
  | inl same ↦
      let eq : p ≡ q = ground arith in
      let both : some (some i) ≡ some (some k) = sym e ∙ ap (get_elem? s.peers) (sym eq) ∙ at in
      (
        j,
        ap (get_elem? (set s.peers p (some j))) (sym eq)
            ∙ get_elem?-set_self s.peers p (some j) (get_elem?-lt s.peers p at),
        subst (λ x. Follows x j) (ap (peer_in k) (sym both)) f,
      )
  | inr other ↦
      let ne : p ≢ q = λ eq. ground arith in
      (i, get_elem?-set_ne s.peers p q (some j) ne ∙ e, Follows-refl i)
]

-- However the command ends, by an exception too, the peers evolve.
abbrev pub IsMild : {A : Type 0} → Act A → Type 0
IsMild {A} m = (s : Server) (o : Ending A) (t : Server) → m s ≡ some (o, t) → Evolves s t

pub same-IsMild :
    {A : Type 0} (m : Act A)
    → ((s : Server) (o : Ending A) (t : Server) → m s ≡ some (o, t) → t.peers ≡ s.peers)
    → IsMild m
same-IsMild m h s o t e = peers-Evolves s t (h s o t e)

pub pure-IsMild : {A : Type 0} (a : A) → IsMild (pure a)
pure-IsMild a = same-IsMild (pure a) (λ s o t e. ground arith)

pub throw-IsMild : {A : Type 0} (text : Bytes) → IsMild {A = A} (throw text)
throw-IsMild text = same-IsMild (throw text) (λ s o t e. ground arith)

pub >>=-IsMild :
    {A B : Type 0} (m : Act A) (f : A → Act B)
    → IsMild m
    → ((a : A) → IsMild (f a))
    → IsMild (m >>= f)
>>=-IsMild m f hm hf s o t h = elim (Option-cases (m s)) [
  | inl e ↦ ground arith
  | inr ((returns a, s'), e) ↦
      Evolves-trans s s' t (hm s (returns a) s' e) (hf a s' o t (ground arith))
  | inr ((throws text, s'), e) ↦
      let eq : s' ≡ t = ground arith in subst (Evolves s) eq (hm s (throws text) s' e)
  | inr ((throws_std, s'), e) ↦
      let eq : s' ≡ t = ground arith in subst (Evolves s) eq (hm s throws_std s' e)
]

-- One step of a command that returns.
pub >>=-returns :
    {A B : Type 0} (m : Act A) (f : A → Act B) (s : Server) {a : A} {s' : Server}
    → m s ≡ some (returns a, s')
    → (m >>= f) s ≡ f a s'
>>=-returns m f s e = rw (e, ◌>>=◌)

-- What is read is there.
pub load_peer-some :
    (p : ℕ) (s : Server) {o : Ending Peer} {t : Server}
    → load_peer p s ≡ some (o, t)
    → (k : Peer) × (get_elem? s.peers p ≡ some (some k)) × (o ≡ returns k) × (t ≡ s)
unfolding load_peer
load_peer-some p s h = elim (Option-cases (get_elem? s.peers p)) [
  | inl e ↦ ground arith
  | inr (cell, e) ↦ elim (Option-cases cell) [
    | inl n ↦ ground arith
    | inr (k, n) ↦ (k, e ∙ ap some n, ground arith, ground arith)
  ]
]

pub load_peer_lem :
    (p : ℕ) (s : Server) {k : Peer}
    → get_elem? s.peers p ≡ some (some k)
    → load_peer p s ≡ some (returns k, s)
unfolding load_peer
load_peer_lem p s e = rw (load_peer, e) refl

pub load_peer-IsMild : (p : ℕ) → IsMild (load_peer p)
load_peer-IsMild p =
    same-IsMild (load_peer p) (λ s o t e. ap (λ x. x.peers) (load_peer-some p s e).3)

pub load_file-IsMild : (f : ℕ) → IsMild (load_file f)
unfolding load_file
load_file-IsMild f = same-IsMild (load_file f) (λ s o t e. ground arith)

pub store_file-IsMild : (f : ℕ) (x : File) → IsMild (store_file f x)
unfolding store_file
store_file-IsMild f x = same-IsMild (store_file f x) (λ s o t e. ground arith)

pub write_text-IsMild : (p : ℕ) (text : Bytes) → IsMild (write_text p text)
unfolding write_text
write_text-IsMild p text = same-IsMild (write_text p text) (λ s o t e. ground arith)

-- A peer is read, and changed, and the command goes on.
pub update-steps :
    {B : Type 0} (p : ℕ) (g : Peer → Peer) (m : Peer → Act B) (s : Server) {o : Ending B}
    {t : Server}
    → (load_peer p >>= λ k. store_peer p (g k) >> m k) s ≡ some (o, t)
    → (k : Peer) × (get_elem? s.peers p ≡ some (some k))
      × (m k (record s { peers = set s.peers p (some (g k)) }) ≡ some (o, t))
unfolding store_peer
update-steps p g m s h = elim (Option-cases (load_peer p s)) [
  | inl e ↦ ground arith
  | inr ((r, s'), e) ↦
      let (k, at, ret, same) = load_peer-some p s e in (k, at, ground (arith, load_peer_lem p s at))
]

pub update-IsMild :
    {B : Type 0} (p : ℕ) (g : Peer → Peer) (m : Peer → Act B)
    → ((k : Peer) → Follows k (g k))
    → ((k : Peer) → IsMild (m k))
    → IsMild (load_peer p >>= λ k. store_peer p (g k) >> m k)
update-IsMild p g m fol hm s o t h =
    let (k, at, e) = update-steps p g m s h in
    let s1 : Server = record s { peers = set s.peers p (some (g k)) } in
    Evolves-trans s s1 t (stored-Evolves s p k (g k) at (fol k)) (hm k s1 o t e)

-- A peer is read, and the command goes on with it.
pub load-steps :
    {B : Type 0} (p : ℕ) (m : Peer → Act B) (s : Server) {o : Ending B} {t : Server}
    → (load_peer p >>= m) s ≡ some (o, t)
    → (k : Peer) × (get_elem? s.peers p ≡ some (some k)) × (m k s ≡ some (o, t))
load-steps p m s h = elim (Option-cases (load_peer p s)) [
  | inl e ↦ ground arith
  | inr ((r, s'), e) ↦
      let (k, at, ret, same) = load_peer-some p s e in (k, at, ground (arith, load_peer_lem p s at))
]
