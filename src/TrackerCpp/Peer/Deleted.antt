-- ===== src/TrackerCpp/Peer/Deleted.antt =====
-- A peer that is deleted stays in the sets of peers of its files.
use raiezau.Base.{
  ℕ, ◌≡◌, ◌≢◌, refl, sym, ap, ◌∙◌, Bool, true, false, none, some, List, [], ◌∷◌, ◌==◌, arith,
  get_elem?, set, Bool-cases, Option-cases, inl, inr, get_elem?-set_self, get_elem?-set_ne,
  get_elem?-lt,
}
use raiezau.Tracker.File.Peers.{member}
use raiezau.TrackerCpp.FileMgr.{File, get}
use raiezau.TrackerCpp.Peer.{Peer, Server, Act, ◌>>=◌, load_peer, load_file}
use raiezau.TrackerCpp.Peer.Follows.{load_peer_lem, load_file_lem, >>=-returns}
use raiezau.TrackerCpp.Peer.Requests.{
  announced_only, other_peers, peer_list_string, answer_getfile, handle_getfile,
}
use raiezau.TrackerCpp.Text.{Stream, read_word}

-- `delete` of a peer, in `EventManager::cleanDeleteList`
unfoldable pub delete_peer : ℕ → Server → Server
delete_peer q s = record s { peers = set s.peers q none }

>>=-none : {A B : Type 0} (m : Act A) (f : A → Act B) (s : Server) → m s ≡ none → (m >>= f) s ≡ none
>>=-none m f s e = rw (e, ◌>>=◌)

load_deleted : (q : ℕ) (s : Server) → get_elem? s.peers q ≡ some none → load_peer q s ≡ none
unfolding load_peer
load_deleted q s e = rw (load_peer, e) refl

-- a peer that is there, and then nothing
loaded_or_none :
    {B : Type 0} (r : ℕ) (f : Peer → Act B) (s : Server)
    → ((k : Peer) → get_elem? s.peers r ≡ some (some k) → f k s ≡ none)
    → (load_peer r >>= f) s ≡ none
unfolding load_peer
loaded_or_none r f s h = elim (Option-cases (get_elem? s.peers r)) [
  | inl e ↦ >>=-none (load_peer r) f s (rw (load_peer, e) refl)
  | inr (none, e) ↦ >>=-none (load_peer r) f s (load_deleted r s e)
  | inr (some k, e) ↦ >>=-returns (load_peer r) f s (load_peer_lem r s e) ∙ h k e
]

-- one of the others is deleted
others_deleted :
    (p q : ℕ) (first : Bool) (peers : List ℕ) (s : Server)
    → (q == p) ≡ false
    → get_elem? s.peers q ≡ some none
    → member q peers ≡ true
    → other_peers p first peers s ≡ none
unfolding other_peers member
others_deleted p q first [] s ne gone h = ground arith
others_deleted p q first (r ∷ peers) s ne gone h = elim (Bool-cases (q == r)) [
  | inl same ↦
      let eq : q ≡ r = ground arith in
      let other : (r == p) ≡ false = ground arith in
      let cell : get_elem? s.peers r ≡ some none = ap (get_elem? s.peers) (sym eq) ∙ gone in
      rw (other_peers, other) (>>=-none (load_peer r) _ s (load_deleted r s cell))
  | inr differ ↦
      let later : member q peers ≡ true = ground arith in
      elim (Bool-cases (r == p)) [
        | inl self ↦ rw (other_peers, self) (others_deleted p q first peers s ne gone later)
        | inr other ↦
            rw (other_peers, other)
              (loaded_or_none r _ s λ k at.
                >>=-none (other_peers p false peers) _ s
                  (others_deleted p q false peers s ne gone later))
      ]
]

-- A file that has a peer, which is then deleted: another peer, one that has announced itself, asks by
-- getfile for the file's hash, and the deleted peer is used.
pub handle_getfile_deleted :
    (p q f : ℕ) (line : Stream) (s : Server) (k gone : Peer) (x : File)
    → get_elem? s.peers p ≡ some (some k)
    → k.announced ≡ true
    → get_elem? s.peers q ≡ some (some gone)
    → (q == p) ≡ false
    → get s.files (read_word line []).0 ≡ some f
    → get_elem? s.files.files f ≡ some x
    → member q x.peers ≡ true
    → handle_getfile p line (delete_peer q s) ≡ none
unfolding handle_getfile announced_only answer_getfile peer_list_string delete_peer
handle_getfile_deleted p q f line s k gone x at said was ne known file listed =
    let t : Server = record s { peers = set s.peers q none } in
    let apart : q ≢ p = λ e. ground arith in
    let at' : get_elem? t.peers p ≡ some (some k) = get_elem?-set_ne s.peers q p none apart ∙ at in
    let cell : get_elem? t.peers q ≡ some none =
      get_elem?-set_self s.peers q none (get_elem?-lt s.peers q was) in
    let missing = others_deleted p q true x.peers t ne cell listed in
    >>=-returns (load_peer p) _ t (load_peer_lem p t at')
    ∙ rw said (
        rw (answer_getfile, known)
          (>>=-returns (load_file f) _ t (load_file_lem f t file)
            ∙ >>=-none (peer_list_string p x) _ t
                (>>=-none (other_peers p true x.peers) _ t missing)))
