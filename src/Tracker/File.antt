-- ===== src/Tracker/File.antt =====
-- tracker/file.c: the files that the tracker knows, and the clients that have each of them.
pub mod Registry
pub mod Pieces
pub mod Peers
use raiezau.Base.{
  ℕ, ◌+◌, ◌/◌, ◌%◌, ◌^◌, Bool, Option, none, some, List, [], ◌∷◌, ◌++◌, ◌==◌, if◌then◌else◌, length,
  get_elem?, set,
}
use raiezau.Base.Bytes.{Bytes}
use raiezau.Cutil.HashTable
use raiezau.Cutil.HashTable.{Status}
use raiezau.Cutil.Uthash.{Uthash}
use raiezau.Tracker.State.{
  File, Client, State, Cmd, pure, ◌>>=◌, ◌>>◌, modify, load_file, store_file, load_client, non_null,
}

module _ (u : Uthash ℕ) where
  -- `list_add(l, f)` on a list that `file_by_name` points to
  unfoldable pub push_name : ℕ → ℕ → State u → State u
  push_name l f s = elim (get_elem? s.name_lists l) [
    | none ↦ s
    | some old ↦ record s { name_lists = set s.name_lists l (f ∷ old) }
  ]

  -- `file_register(f)`, where `x` is what `f` points to
  unfoldable pub file_register : ℕ → File u → State u → State u
  unfolding push_name HashTable.get_entry HashTable.add_entry
  file_register f x s =
      let s = record s { file_by_hash = HashTable.add_entry u s.file_by_hash x.md5_str f } in
      elim (HashTable.get_entry u s.file_by_name x.filename) [
        | some l ↦ push_name l f s
        | none ↦
            let l = length s.name_lists in
            push_name l f (record s {
              name_lists = s.name_lists ++ [] ∷ [];
              file_by_name = HashTable.add_entry u s.file_by_name x.filename l;
            })
      ]

  -- the new object; `length` and `piece_size` are of type `uint32_t`
  unfoldable pub new_object : Bytes → ℕ → ℕ → Bytes → File u
  unfolding HashTable.create
  new_object filename length piece_size md5_str = record {
    filename = filename;
    md5_str = md5_str;
    length = length;
    piece_size = piece_size;
    piece_count = (length / piece_size + (if length % piece_size == 0 then 0 else 1)) % 2 ^ 32;
    clients = HashTable.create u;
  }

  -- a division by a `piece_size` of zero is a fault
  unfoldable pub file_new : Bytes → ℕ → ℕ → Bytes → Cmd u ℕ
  unfolding file_register new_object
  file_new filename length_ piece_size md5_str s =
      if piece_size == 0
      then none
      else let f = length s.files in
        let x = new_object filename length_ piece_size md5_str in
        some (f, file_register f x (record s { files = s.files ++ x ∷ [] }))

  -- a NULL key is a fault
  unfoldable pub file_add_client : ℕ → ℕ → Cmd u (Unit {0})
  unfolding HashTable.add_unique_entry load_file store_file load_client non_null
  file_add_client f c = do
    x ← load_file f
    k ← load_client c
    key ← non_null k.listen_addr_key
    store_file f (record x { clients = (HashTable.add_unique_entry u x.clients key c).0 })

  unfoldable pub file_remove_client : ℕ → ℕ → Cmd u (Unit {0})
  unfolding HashTable.remove_entry load_file store_file load_client non_null
  file_remove_client f c = do
    x ← load_file f
    k ← load_client c
    key ← non_null k.listen_addr_key
    store_file f (record x { clients = (HashTable.remove_entry u x.clients key).0 })

  file_get_by_ : u.Table → Bytes → Option ℕ
  unfolding HashTable.get_entry
  file_get_by_ ht what = HashTable.get_entry u ht what

  unfoldable pub file_get_by_key : State u → Bytes → Option ℕ
  unfolding file_get_by_
  file_get_by_key s md5_key = file_get_by_ s.file_by_hash md5_key

  -- the list that `file_by_name` has for the name
  unfoldable pub file_get_by_name : State u → Bytes → Option (List ℕ)
  unfolding HashTable.get_entry
  file_get_by_name s name = elim (HashTable.get_entry u s.file_by_name name) [
    | none ↦ none
    | some l ↦ get_elem? s.name_lists l
  ]

  unfoldable pub file_get_or_create : Bytes → ℕ → ℕ → Bytes → Cmd u ℕ
  unfolding file_get_by_key file_new
  file_get_or_create filename length piece_size md5_str s = elim (file_get_by_key s md5_str) [
    | some f ↦ some (f, s)
    | none ↦ file_new filename length piece_size md5_str s
  ]

  unfoldable pub file_list : State u → List ℕ
  unfolding HashTable.to_list
  file_list s = HashTable.to_list u s.file_by_hash
