-- ===== src/TrackerCpp/FileMgr.antt =====
-- tracker_cpp/FileMgr.cpp, FileMap.cpp and File.cpp: the files of the earlier tracker. A `File *` is
-- its place in the list of all files made, one that is deleted at once left out; the map is
-- the list of its pairs and a set the list of its elements, in which order has no effect here.
pub mod Lookup
use raiezau.Base.{
  ℕ, Bool, true, false, ◌&&◌, Option, none, some, List, [], ◌∷◌, ◌++◌, ◌==◌, if◌then◌else◌, length,
  get_elem?, set,
}
use raiezau.Base.Bytes.{Bytes, codes, str_eq}
use raiezau.Cutil.HashTable.Keys.{lookup}
use raiezau.Tracker.Env.{decimal}

pub record File : Type 0 where
  pub file_name : Bytes
  pub file_size : ℕ
  pub piece_size : ℕ
  pub hash : Bytes
  pub peers : List ℕ

-- `operator==`, which compares the size twice and the name never
unfoldable pub same_file : File → File → Bool
same_file a b =
    a.file_size == b.file_size
    && (a.file_size == b.file_size && (a.piece_size == b.piece_size && str_eq a.hash b.hash))

insert_peer : ℕ → List ℕ → List ℕ
insert_peer p [] = p ∷ []
insert_peer p (q ∷ peers) =
    let later = insert_peer p peers in if p == q then q ∷ peers else q ∷ later

unfoldable pub add_peer : ℕ → File → File
unfolding insert_peer
add_peer p x = record x { peers = insert_peer p x.peers }

unfoldable pub to_string : File → Bytes
unfolding decimal
to_string x =
    x.file_name
    ++ (codes " "
        ++ (decimal x.file_size ++ (codes " " ++ (decimal x.piece_size ++ (codes " " ++ x.hash)))))

pub record FileMgr : Type 0 where
  pub files : List File
  pub map : List (Bytes × ℕ)
  pub file_set : List ℕ

-- `FileMap::get`; `none` is NULL
unfoldable pub get : FileMgr → Bytes → Option ℕ
unfolding lookup
get m hash = lookup hash m.map

-- `FileMap::insert`: a key that the map has keeps its value
unfoldable pub map_insert : Bytes → ℕ → List (Bytes × ℕ) → List (Bytes × ℕ)
unfolding lookup
map_insert hash p map = elim (lookup hash map) [ none ↦ map ++ (hash, p) ∷ [] | some q ↦ map ]

-- `FileMgr::insert` of the file that was made last
unfoldable pub insert : File → FileMgr → ℕ × FileMgr
unfolding map_insert
insert x m =
    let p = length m.files in
    (
      p,
      record {
        files = m.files ++ x ∷ [];
        map = map_insert x.hash p m.map;
        file_set = m.file_set ++ p ∷ [];
      },
    )

-- `none` is a read through a pointer to no file
unfoldable pub get_file : Bytes → ℕ → ℕ → Bytes → FileMgr → Option (ℕ × FileMgr)
unfolding insert same_file lookup
get_file file_name file_size piece_size hash m =
    let x : File = record {
      file_name = file_name;
      file_size = file_size;
      piece_size = piece_size;
      hash = hash;
      peers = [];
    } in
    elim (lookup hash m.map) [
      | none ↦ some (insert x m)
      | some q ↦ elim (get_elem? m.files q) [
        | none ↦ none
        | some y ↦ if same_file y x then some (q, m) else some (insert x m)
      ]
    ]
