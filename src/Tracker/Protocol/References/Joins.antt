-- ===== src/Tracker/Protocol/References/Joins.antt =====
-- What announce and update do to the clients, and the reference counts.
use raiezau.Base.{
  ℕ, ◌%◌, ◌^◌, ◌≡◌, refl, some, List, [], ◌∷◌, ◌++◌, ◌==◌, arith, drop, length, Bool-cases,
  Option-cases, inl, inr,
}
use raiezau.Base.Bytes.{Bytes, codes}
use raiezau.Cutil.HashTable
use raiezau.Cutil.HashTable.{Status, success, failure}
use raiezau.Cutil.Text.{string_split}
use raiezau.Cutil.Uthash.{Uthash}
use raiezau.Tracker.Client.{client_set_listening_port, ip_stringify}
use raiezau.Tracker.Client.Neutral.{
  IsNeutral, >>=-IsNeutral, cells-IsNeutral, pure-IsNeutral, load_client-IsNeutral,
  load_file-IsNeutral, store_file-IsNeutral, non_null-IsNeutral, update-IsNeutral,
}
use raiezau.Tracker.Env.{atoi, atol, decimal}
use raiezau.Tracker.File.{
  push_name, file_register, new_object, file_new, file_add_client, file_get_or_create,
  file_get_by_key,
}
use raiezau.Tracker.Protocol.{
  write_string, seed_loop, get_seed_file_list, get_leech_file_list, add_client_to_files, set_files,
  seed_leech_match_and_parse, announce_match_and_parse, substring,
}
use raiezau.Tracker.State.{State, File, Client, pure, ◌>>=◌, ◌>>◌, load_client, load_file, non_null}

module _ {u : Uthash ℕ} where
  push_name-cells : (l f : ℕ) (s : State u) → (push_name u l f s).client_at ≡ s.client_at
  unfolding push_name
  push_name-cells l f s = ground arith

  file_register-cells :
      (f : ℕ) (x : File u) (s : State u) → (file_register u f x s).client_at ≡ s.client_at
  unfolding file_register
  file_register-cells f x s =
      elim (Option-cases (HashTable.get_entry u s.file_by_name x.filename)) [
        | inl e ↦ rw (file_register, e) (search push_name-cells)
        | inr (l, e) ↦ rw (file_register, e) (search push_name-cells)
      ]

  file_new-IsNeutral :
      (name : Bytes) (size piece : ℕ) (key : Bytes) → IsNeutral (file_new u name size piece key)
  unfolding file_new
  file_new-IsNeutral name size piece key =
      cells-IsNeutral (file_new u name size piece key) λ s f t e.
        let x = new_object u name size piece key in
        ground
          (arith, file_register-cells (length s.files) x (record s { files = s.files ++ x ∷ [] }))

  file_get_or_create-IsNeutral :
      (name : Bytes) (size piece : ℕ) (key : Bytes)
      → IsNeutral (file_get_or_create u name size piece key)
  unfolding file_get_or_create
  file_get_or_create-IsNeutral name size piece key s a t e =
      elim (Option-cases (file_get_by_key u s key)) [
        | inl n ↦ file_new-IsNeutral name size piece key s a t (ground arith)
        | inr (f, n) ↦ pure-IsNeutral f s a t (ground arith)
      ]

  pub write_string-IsNeutral : (sock : ℕ) (str : Bytes) → IsNeutral (write_string u sock str)
  unfolding write_string
  write_string-IsNeutral sock str =
      cells-IsNeutral (write_string u sock str) (λ s a t e. ground arith)

  file_add_client-IsNeutral : (f c : ℕ) → IsNeutral (file_add_client u f c)
  unfolding file_add_client
  file_add_client-IsNeutral f c = >>=-IsNeutral (load_file f) _ (load_file-IsNeutral f) λ x.
      >>=-IsNeutral (load_client c) _ (load_client-IsNeutral c) λ k.
        >>=-IsNeutral (non_null k.listen_addr_key) _ (non_null-IsNeutral k.listen_addr_key)
          λ key. store_file-IsNeutral f _

  -- a text for the client's socket
  pub written-IsNeutral :
      {A : Type 0} (c : ℕ) (text : Client → Bytes) (a : A)
      → IsNeutral (load_client c >>= λ k. write_string u k.socket (text k) >> pure a)
  written-IsNeutral c text a = >>=-IsNeutral (load_client c) _ (load_client-IsNeutral c) λ k.
      >>=-IsNeutral (write_string u k.socket (text k)) _ (write_string-IsNeutral k.socket (text k))
        λ _. pure-IsNeutral a

  seed_loop-IsNeutral : (words : List Bytes) → IsNeutral (seed_loop u words)
  unfolding seed_loop
  seed_loop-IsNeutral (name ∷ size ∷ piece ∷ key ∷ rest) =
      >>=-IsNeutral (file_get_or_create u name (atol size % 2 ^ 32) (atoi piece) key) _
        (file_get_or_create-IsNeutral name (atol size % 2 ^ 32) (atoi piece) key)
        λ f.
          >>=-IsNeutral (seed_loop u rest) _ (seed_loop-IsNeutral rest) λ l. pure-IsNeutral (f ∷ l)
  seed_loop-IsNeutral [] = pure-IsNeutral []
  seed_loop-IsNeutral (a ∷ []) = pure-IsNeutral []
  seed_loop-IsNeutral (a ∷ b ∷ []) = pure-IsNeutral []
  seed_loop-IsNeutral (a ∷ b ∷ c ∷ []) = pure-IsNeutral []

  get_seed_file_list-IsNeutral : (text : Bytes) → IsNeutral (get_seed_file_list u text)
  unfolding get_seed_file_list
  get_seed_file_list-IsNeutral text =
      elim (Bool-cases (length (string_split text (codes " ")) % 4 == 0)) [
        | inl e ↦ rw e (seed_loop-IsNeutral (string_split text (codes " ")))
        | inr e ↦ rw e (pure-IsNeutral [])
      ]

  add_client_to_files-IsNeutral :
      (c : ℕ) (files : List ℕ) → IsNeutral (add_client_to_files u c files)
  unfolding add_client_to_files
  add_client_to_files-IsNeutral c [] = pure-IsNeutral tt
  add_client_to_files-IsNeutral c (f ∷ files) =
      >>=-IsNeutral (file_add_client u f c) _ (file_add_client-IsNeutral f c)
        λ _. add_client_to_files-IsNeutral c files

  pub parse-IsNeutral :
      (c : ℕ) (req : Bytes) (seed leech : ℕ × ℕ)
      → IsNeutral (seed_leech_match_and_parse u c req seed leech)
  unfolding seed_leech_match_and_parse get_leech_file_list set_files
  parse-IsNeutral c req seed_match leech_match =
      >>=-IsNeutral (get_seed_file_list u (substring req seed_match)) _
        (get_seed_file_list-IsNeutral (substring req seed_match))
        λ seed.
          >>=-IsNeutral (get_leech_file_list u (substring req leech_match)) _
            (cells-IsNeutral (get_leech_file_list u (substring req leech_match))
              (λ s l t e. ground arith))
            λ leech.
              >>=-IsNeutral (set_files u c seed leech) _
                (update-IsNeutral c (λ k. record k { files_seed = seed; files_leech = leech })
                  (λ k. refl))
                λ _.
                  >>=-IsNeutral (add_client_to_files u c seed) _
                    (add_client_to_files-IsNeutral c seed)
                    λ _. add_client_to_files-IsNeutral c leech

  pub announced-IsNeutral :
      (c : ℕ) (req : Bytes) (pmatch : ℕ → ℕ × ℕ)
      → IsNeutral (announce_match_and_parse u c req pmatch)
  unfolding announce_match_and_parse client_set_listening_port
  announced-IsNeutral c req pmatch =
      let port = atoi (drop (pmatch 1).0 req) % 2 ^ 16 in
      >>=-IsNeutral (client_set_listening_port u c port) _
        (update-IsNeutral c
          (λ k. record k {
            listening_port = port;
            listen_addr_key = some (ip_stringify k.addr ++ (codes ":" ++ decimal port));
          })
          (λ k. refl))
        λ _. parse-IsNeutral c req (pmatch 2) (pmatch 3)
