-- ===== src/TrackerCpp/Peer/Keeping.antt =====
-- The requests but announce leave of every peer what `Follows` says, and so do the parts of announce.
use raiezau.Base.{
  ℕ, zero, suc, ◌%◌, ◌≡◌, refl, Bool, true, false, not, ◌||◌, Option, none, some, List, [], ◌∷◌,
  ◌++◌, ◌==◌, arith, length, if◌then◌else◌, Bool-cases, Option-cases, inl, inr,
}
use raiezau.Base.Bytes.{Bytes, codes, str_eq}
use raiezau.TrackerCpp.Criterion.{Criterion, criterions, matches, quoted_argument}
use raiezau.TrackerCpp.FileMgr.{File, add_peer, map_insert, get, to_string}
use raiezau.TrackerCpp.Peer.{
  Peer, Act, pure, ◌>>◌, throw, load_peer, load_file, store_file, send_ok, join_seed, join_leech,
  make_file, announce_seed_loop, parse_announce_seed, announce_leech_loop, parse_announce_leech,
  Words, words, bracketed, without_empty,
}
use raiezau.TrackerCpp.Peer.Follows.{
  Follows, IsMild, same-IsMild, pure-IsMild, throw-IsMild, >>=-IsMild, load_peer-IsMild,
  load_file-IsMild, store_file-IsMild, write_text-IsMild, update-IsMild,
}
use raiezau.TrackerCpp.Peer.Requests.{
  update_round, update_loop, announced_only, handle_update, keep_files, apply_criterion,
  parse_criterion, look_loop, listed, file_list_string, parse_look, handle_look, other_peers,
  peer_string, peer_list_string, answer_getfile, handle_getfile, unexpected,
}
use raiezau.TrackerCpp.Text.{Stream, read_word, stoul, split}

-- a change of the lists of files
lists-Follows :
    (k : Peer) (seed leech : List (Bytes × ℕ)) → Follows k (record k { seed = seed; leech = leech })
lists-Follows k seed leech = record {
  buffer = refl;
  address = refl;
  errors = refl;
  port = λ h. h;
  ported = λ h. h;
}

join_seed-IsMild : (p f : ℕ) → IsMild (join_seed p f)
unfolding join_seed
join_seed-IsMild p f = >>=-IsMild (load_file f) _ (load_file-IsMild f) λ x.
    update-IsMild p (λ k. record k { seed = map_insert x.hash f k.seed })
      (λ k. store_file f (add_peer p x)) (λ k. lists-Follows k (map_insert x.hash f k.seed) k.leech)
      (λ k. store_file-IsMild f (add_peer p x))

join_leech-IsMild : (p f : ℕ) → IsMild (join_leech p f)
unfolding join_leech
join_leech-IsMild p f = >>=-IsMild (load_file f) _ (load_file-IsMild f) λ x.
    update-IsMild p (λ k. record k { leech = map_insert x.hash f k.leech })
      (λ k. store_file f (add_peer p x)) (λ k. lists-Follows k k.seed (map_insert x.hash f k.leech))
      (λ k. store_file-IsMild f (add_peer p x))

make_file-IsMild : (name : Bytes) (n m : ℕ) (hash : Bytes) → IsMild (make_file name n m hash)
unfolding make_file
make_file-IsMild name n m hash = same-IsMild (make_file name n m hash) (λ s o t e. ground arith)

announce_seed_loop-IsMild : (p : ℕ) (v : List Bytes) → IsMild (announce_seed_loop p v)
unfolding announce_seed_loop
announce_seed_loop-IsMild p (name ∷ size ∷ piece ∷ hash ∷ v) = elim (Option-cases (stoul size)) [
  | inl e ↦ rw (announce_seed_loop, e) (announce_seed_loop-IsMild p v)
  | inr (n, e) ↦ elim (Option-cases (stoul piece)) [
    | inl e' ↦ rw (announce_seed_loop, e) (rw e' (announce_seed_loop-IsMild p v))
    | inr (m, e') ↦
        rw (announce_seed_loop, e)
          (rw e' (
            >>=-IsMild (make_file name n m hash) _ (make_file-IsMild name n m hash) λ f.
              >>=-IsMild (join_seed p f) _ (join_seed-IsMild p f)
                λ _. announce_seed_loop-IsMild p v))
  ]
]
announce_seed_loop-IsMild p [] = pure-IsMild tt
announce_seed_loop-IsMild p (a ∷ []) = pure-IsMild tt
announce_seed_loop-IsMild p (a ∷ b ∷ []) = pure-IsMild tt
announce_seed_loop-IsMild p (a ∷ b ∷ c ∷ []) = pure-IsMild tt

pub parse_announce_seed-IsMild : (p : ℕ) (seed : Bytes) → IsMild (parse_announce_seed p seed)
unfolding parse_announce_seed
parse_announce_seed-IsMild p seed =
    let v = without_empty (split seed b' ') in
    update-IsMild p (λ k. record k { seed = [] })
      (λ k.
        if not (length v % 4 == 0)
        then throw (codes "invalid seed argument count")
        else announce_seed_loop p v)
      (λ k. lists-Follows k [] k.leech)
      (λ k. elim (Bool-cases (length v % 4 == 0)) [
        | inl e ↦ rw e (announce_seed_loop-IsMild p v)
        | inr e ↦ rw e (throw-IsMild (codes "invalid seed argument count"))
      ])

announce_leech_loop-IsMild : (p : ℕ) (v : List Bytes) → IsMild (announce_leech_loop p v)
unfolding announce_leech_loop
announce_leech_loop-IsMild p [] s o t h = pure-IsMild tt s o t h
announce_leech_loop-IsMild p (hash ∷ v) s o t h = elim (Option-cases (get s.files hash)) [
  | inl e ↦ announce_leech_loop-IsMild p v s o t (rw (announce_leech_loop, e) at h)
  | inr (f, e) ↦
      >>=-IsMild (join_leech p f) _ (join_leech-IsMild p f) (λ _. announce_leech_loop-IsMild p v) s
        o t (rw (announce_leech_loop, e) at h)
]

pub parse_announce_leech-IsMild : (p : ℕ) (leech : Bytes) → IsMild (parse_announce_leech p leech)
unfolding parse_announce_leech
parse_announce_leech-IsMild p leech =
    update-IsMild p (λ k. record k { leech = [] }) _ (λ k. lists-Follows k k.seed [])
      (λ k. announce_leech_loop-IsMild p (without_empty (split leech b' ')))

-- a list is read, and the loop goes on
pub then_pure-IsMild : (m : Act (Unit {0})) (w : Words) → IsMild m → IsMild (m >> pure w)
then_pure-IsMild m w h = >>=-IsMild m _ h (λ _. pure-IsMild w)

update_round-IsMild : (p : ℕ) (w : Words) → IsMild (update_round p w)
unfolding update_round
update_round-IsMild p w =
    let (keyword, line) = read_word w.line w.keyword in
    let (argument, rest) = bracketed line w.argument in
    elim (Bool-cases (str_eq keyword (codes "seed"))) [
      | inl e ↦ rw e (then_pure-IsMild _ _ (parse_announce_leech-IsMild p argument))
      | inr e ↦ elim (Bool-cases (str_eq keyword (codes "leech"))) [
        | inl e' ↦ rw (e, e') (then_pure-IsMild _ _ (parse_announce_leech-IsMild p argument))
        | inr e' ↦ rw (e, e') (throw-IsMild (unexpected keyword))
      ]
    ]

update_loop-IsMild : (p rounds : ℕ) (w : Words) → IsMild (update_loop p rounds w)
unfolding update_loop
update_loop-IsMild p zero w = pure-IsMild w
update_loop-IsMild p (suc rounds) w =
    >>=-IsMild (update_round p w) _ (update_round-IsMild p w) (update_loop-IsMild p rounds)

announced_only-IsMild : {A : Type 0} (p : ℕ) (m : Act A) → IsMild m → IsMild (announced_only p m)
unfolding announced_only
announced_only-IsMild p m h = >>=-IsMild (load_peer p) _ (load_peer-IsMild p) λ k.
    elim (Bool-cases k.announced) [
      | inl e ↦ rw e h
      | inr e ↦ rw e (throw-IsMild (codes "not announced."))
    ]

pub send_ok-IsMild : (p : ℕ) → IsMild (send_ok p)
unfolding send_ok
send_ok-IsMild p = write_text-IsMild p (codes "ok\n")

pub handle_update-IsMild : (p : ℕ) (line : Stream) → IsMild (handle_update p line)
unfolding handle_update
handle_update-IsMild p line = announced_only-IsMild p _ (
    >>=-IsMild (update_loop p 2 (words line)) _ (update_loop-IsMild p 2 (words line)) λ w.
      elim (Bool-cases (not w.seed || not w.leech)) [
        | inl e ↦ rw e (throw-IsMild (codes "invalid request"))
        | inr e ↦ rw e (send_ok-IsMild p)
      ])

keep_files-IsMild :
    (predicate : File → Bytes → Option Bool) (arg : Bytes) (files : List ℕ)
    → IsMild (keep_files predicate arg files)
unfolding keep_files
keep_files-IsMild predicate arg [] = pure-IsMild []
keep_files-IsMild predicate arg (f ∷ files) = >>=-IsMild (load_file f) _ (load_file-IsMild f) λ x.
    elim (Option-cases (predicate x arg)) [
      | inl e ↦ rw e (same-IsMild _ (λ s o t h. ground arith))
      | inr (b, e) ↦ rw e (
          >>=-IsMild (keep_files predicate arg files) _ (keep_files-IsMild predicate arg files)
            λ rest. pure-IsMild (if b then f ∷ rest else rest))
    ]

apply_criterion-IsMild :
    (c : Criterion) (value : Bytes) (files : List ℕ) → IsMild (apply_criterion c value files)
unfolding apply_criterion
apply_criterion-IsMild c value files = elim (Option-cases (quoted_argument c value)) [
  | inl e ↦ rw (apply_criterion, e) (same-IsMild _ (λ s o t h. ground arith))
  | inr (arg, e) ↦ rw (apply_criterion, e) (keep_files-IsMild c.predicate arg files)
]

parse_criterion-IsMild :
    (cs : List Criterion) (value : Bytes) (files : List ℕ) → IsMild (parse_criterion cs value files)
unfolding parse_criterion
parse_criterion-IsMild [] value files = pure-IsMild []
parse_criterion-IsMild (c ∷ cs) value files = elim (Bool-cases (matches c value)) [
  | inl e ↦ rw (parse_criterion, e) (apply_criterion-IsMild c value files)
  | inr e ↦ rw (parse_criterion, e) (parse_criterion-IsMild cs value files)
]

look_loop-IsMild : (v : List Bytes) (files : List ℕ) → IsMild (look_loop v files)
unfolding look_loop
look_loop-IsMild [] files = pure-IsMild files
look_loop-IsMild (value ∷ v) files =
    >>=-IsMild (parse_criterion criterions value files) _
      (parse_criterion-IsMild criterions value files) (look_loop-IsMild v)

listed-IsMild : (first : Bool) (files : List ℕ) → IsMild (listed first files)
unfolding listed
listed-IsMild first [] = pure-IsMild []
listed-IsMild first (f ∷ files) = >>=-IsMild (load_file f) _ (load_file-IsMild f) λ x.
    >>=-IsMild (listed false files) _ (listed-IsMild false files)
      λ rest. pure-IsMild ((if first then [] else codes " ") ++ (to_string x ++ rest))

file_list_string-IsMild : (files : List ℕ) → IsMild (file_list_string files)
unfolding file_list_string
file_list_string-IsMild files =
    >>=-IsMild (listed true files) _ (listed-IsMild true files) λ text. pure-IsMild _

pub handle_look-IsMild : (p : ℕ) (line : Stream) → IsMild (handle_look p line)
unfolding handle_look parse_look
handle_look-IsMild p line = announced_only-IsMild p _ λ s.
    >>=-IsMild (look_loop (split (bracketed line []).0 b' ') s.files.file_set) _
      (look_loop-IsMild (split (bracketed line []).0 b' ') s.files.file_set)
      (λ files.
        >>=-IsMild (file_list_string files) _ (file_list_string-IsMild files) (write_text-IsMild p))
      s

other_peers-IsMild : (p : ℕ) (first : Bool) (peers : List ℕ) → IsMild (other_peers p first peers)
unfolding other_peers
other_peers-IsMild p first [] = pure-IsMild []
other_peers-IsMild p first (q ∷ peers) = elim (Bool-cases (q == p)) [
  | inl e ↦ rw (other_peers, e) (other_peers-IsMild p first peers)
  | inr e ↦
      rw (other_peers, e)
        (>>=-IsMild (load_peer q) _ (load_peer-IsMild q) λ k.
          >>=-IsMild (other_peers p false peers) _ (other_peers-IsMild p false peers)
            λ rest. pure-IsMild ((if first then [] else codes " ") ++ (peer_string k ++ rest)))
]

pub handle_getfile-IsMild : (p : ℕ) (line : Stream) → IsMild (handle_getfile p line)
unfolding handle_getfile answer_getfile peer_list_string
handle_getfile-IsMild p line = announced_only-IsMild p _ λ s o t h.
    elim (Option-cases (get s.files (read_word line []).0)) [
      | inl e ↦ let h' : none ≡ some (o, t) = rw (answer_getfile, e) at h in ground arith
      | inr (f, e) ↦
          >>=-IsMild (load_file f) _ (load_file-IsMild f)
            (λ x.
              >>=-IsMild (peer_list_string p x) _
                (>>=-IsMild (other_peers p true x.peers) _ (other_peers-IsMild p true x.peers)
                  λ text. pure-IsMild _)
                (write_text-IsMild p))
            s o t (rw (answer_getfile, e) at h)
    ]
