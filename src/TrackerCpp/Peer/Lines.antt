-- ===== src/TrackerCpp/Peer/Lines.antt =====
-- `readHandler` on a buffer whose bytes lie in one piece serves its lines one after another.
use mathlib.Core.Path.{subst}
use raiezau.Base.{
  ℕ, zero, suc, ◌<◌, ◌≡◌, refl, sym, ap, ◌∙◌, Bool, true, false, not, ◌||◌, leb, ltb, some, List,
  [], ◌∷◌, ◌++◌, ◌==◌, arith, if◌then◌else◌, Bool-cases, Option-cases, inl, inr, length,
  length-append, All, get_elem?, set, get_elem?-set_self, get_elem?-lt,
}
use raiezau.Base.Bytes.{Bytes}
use raiezau.TrackerCpp.CircularBuffer.{CircularBuffer, have_line, have_word}
use raiezau.TrackerCpp.CircularBuffer.Search.{has}
use raiezau.TrackerCpp.CircularBuffer.Until.{
  Straight, Straight-contains, behind, contains_line, behind-Straight, read_until_lem,
}
use raiezau.TrackerCpp.Peer.{
  Peer, Server, returns, throws, throws_std, Act, pure, ◌>>=◌, ◌>>◌, load_peer, store_peer,
}
use raiezau.TrackerCpp.Peer.Follows.{load_peer_lem, >>=-returns}
use raiezau.TrackerCpp.Peer.Reading.{max_keyword_size, serve_line, read_line, read_handler}
use raiezau.TrackerCpp.Peer.Serving.{serve_line-IsServing}

-- Lines, each with its newline, and the bytes behind the last one.
unfoldable pub text_of : List Bytes → Bytes → Bytes
text_of [] tail = tail
text_of (l ∷ ls) tail = l ++ b'\n' ∷ text_of ls tail

-- A line, or a tail, has no newline.
abbrev pub IsLine : Bytes → Type 0
IsLine l = has b'\n' l ≡ false

-- Whether a connection stays that has sent these bytes behind its last line.
abbrev pub patient : Bytes → Bool
patient tail = has b' ' tail || leb (length tail) 8

module _ (what : Bytes) (p : ℕ) where
  -- The lines are taken from the buffer and served, until one of them ends the connection.
  unfoldable pub serve_lines : CircularBuffer → List Bytes → Bytes → Act Bool
  unfolding load_peer store_peer serve_line
  serve_lines b [] tail = pure (patient tail)
  serve_lines b (l ∷ ls) tail = do
    k ← load_peer p
    store_peer p (record k { read_buf = behind b l })
    stays ← serve_line what p l
    (if stays then serve_lines (behind b l) ls tail else pure false)

  -- what is left behind the last line
  tail_lem :
      (later : Act Bool) (tail : Bytes) (s : Server) (k : Peer)
      → Straight k.read_buf tail
      → IsLine tail
      → read_line what later p k s ≡ some (returns (patient tail), s)
  unfolding read_line have_line have_word
  tail_lem later tail s k h clear =
      let size : not (ltb max_keyword_size k.read_buf.size) ≡ leb (length tail) 8 =
        ground (arith, h.holds.count) in
      rw (read_line, have_line, Straight-contains h b'\n', clear)
        (rw (have_word, Straight-contains h b' ') (rw size refl))

  start_lem :
      (rounds : ℕ) (s : Server) (k : Peer)
      → get_elem? s.peers p ≡ some (some k)
      → (k.read_buf.size == 0) ≡ false
      → read_handler what (suc rounds) p s ≡ read_line what (read_handler what rounds p) p k s
  unfolding read_handler
  start_lem rounds s k at e = >>=-returns (load_peer p) _ s (load_peer_lem p s at) ∙ rw e refl

  module _ (later : Act Bool) (l rest : Bytes) (s : Server) (k : Peer) where
    abbrev taken : Server
    taken = record s { peers = set s.peers p (some (record k { read_buf = behind k.read_buf l })) }

    line_lem :
        Straight k.read_buf (l ++ b'\n' ∷ rest)
        → IsLine l
        → read_line what later p k s
          ≡ (serve_line what p l >>= λ stays. if stays then later else pure false) taken
    unfolding read_line have_line store_peer
    line_lem h clear =
        rw
          (
            read_line,
            have_line,
            contains_line k.read_buf b'\n' l rest h clear,
            read_until_lem k.read_buf b'\n' l rest h clear,
          )
          refl

  -- what follows a line that the connection outlives
  rest_lem :
      (m m' : Act Bool) (l : Bytes) (s : Server)
      → ((t : Server) → serve_line what p l s ≡ some (returns true, t) → m t ≡ m' t)
      → (serve_line what p l >>= λ stays. if stays then m else pure false) s
        ≡ (serve_line what p l >>= λ stays. if stays then m' else pure false) s
  unfolding serve_line
  rest_lem m m' l s same = elim (Option-cases (serve_line what p l s)) [
    | inl e ↦ rw e refl
    | inr ((returns true, t), e) ↦ rw e (same t e)
    | inr ((returns false, t), e) ↦ rw e refl
    | inr ((throws notice, t), e) ↦ rw e refl
    | inr ((throws_std, t), e) ↦ rw e refl
  ]

  -- If the bytes in a peer's buffer lie in one piece, and are lines, each with its newline, and a tail
  -- without one, then `readHandler` takes one line after another from the buffer and serves it, until
  -- one ends the connection; when all are served, the connection stays exactly if the tail has a
  -- space or at most eight bytes. It does so in any number of rounds above that of the lines.
  pub read_handler_lem :
      (rounds : ℕ) (ls : List Bytes) (tail : Bytes) (s : Server) (k : Peer)
      → get_elem? s.peers p ≡ some (some k)
      → Straight k.read_buf (text_of ls tail)
      → All IsLine ls
      → IsLine tail
      → length ls < rounds
      → read_handler what rounds p s ≡ serve_lines k.read_buf ls tail s
  unfolding read_handler text_of serve_lines store_peer
  read_handler_lem zero ls tail s k at h clear end enough = absurd (omega arith)
  read_handler_lem (suc rounds) [] tail s k at h clear end enough =
      elim (Bool-cases (k.read_buf.size == 0)) [
        | inl e ↦
            let short : leb (length tail) 8 ≡ true = ground (arith, h.holds.count) in
            >>=-returns (load_peer p) _ s (load_peer_lem p s at) ∙ ground (arith, e, short)
        | inr e ↦ start_lem rounds s k at e ∙ tail_lem (read_handler what rounds p) tail s k h end
      ]
  read_handler_lem (suc rounds) (l ∷ ls) tail s k at h (clear, clears) end enough =
      let rest = text_of ls tail in
      let some_left : (k.read_buf.size == 0) ≡ false =
        ground (arith, h.holds.count, length-append l (b'\n' ∷ rest)) in
      let s1 = taken (read_handler what rounds p) l rest s k in
      let at1 : get_elem? s1.peers p ≡ some (some (record k { read_buf = behind k.read_buf l })) =
        get_elem?-set_self s.peers p _ (get_elem?-lt s.peers p at) in
      start_lem rounds s k at some_left
      ∙ line_lem (read_handler what rounds p) l rest s k h clear
      ∙ rest_lem (read_handler what rounds p) (serve_lines (behind k.read_buf l) ls tail) l s1
          (λ s2 e.
            let (b, ret, served) = serve_line-IsServing what p l s1 (returns true) s2 e in
            let (k2, at2, f) = served p (record k { read_buf = behind k.read_buf l }) at1 in
            let straight : Straight k2.read_buf rest =
              subst (λ x. Straight x rest) (sym f.buffer)
                (behind-Straight k.read_buf b'\n' l rest h clear) in
            read_handler_lem rounds ls tail s2 k2 at2 straight clears end (omega arith)
            ∙ ap (λ x. serve_lines x ls tail s2) f.buffer)
      ∙ sym (>>=-returns (load_peer p) _ s (load_peer_lem p s at))
