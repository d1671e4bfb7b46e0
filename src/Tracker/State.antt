-- ===== src/Tracker/State.antt =====
-- The state that the tracker's threads share: the objects on the heap, the tables of file.c and
-- client.c, and what was written to the sockets. A `struct file *` and a `struct client *` are
-- positions in the lists of objects. Files are never freed; a freed client leaves `none` behind, and
-- its address is not used again, so that a use of it shows. A command that returns `none` has done
-- what C leaves undefined, such as a use of a freed object or a division by zero.
use raiezau.Base.{
  ℕ, ◌≡◌, Bool, Option, none, some, List, get_elem?, set, arith, Option-cases, inl, inr,
}
use raiezau.Base.Bytes.{Bytes}
use raiezau.Cutil.Uthash.{Uthash}
use raiezau.Tracker.Env.{SockAddr}

-- `struct client`. `current_thr` and `state` are never read.
pub record Client : Type 0 where
  pub socket : ℕ
  pub addr : SockAddr
  pub conn_addr_key : Bytes
  pub listening_port : ℕ
  pub listen_addr_key : Option Bytes
  pub files_seed : List ℕ
  pub files_leech : List ℕ
  pub ref_count : ℕ
  pub can_rehear : Bool

-- `struct file`.
pub record File (u : Uthash ℕ) : Type 0 where
  pub filename : Bytes
  pub md5_str : Bytes
  pub length : ℕ
  pub piece_count : ℕ
  pub piece_size : ℕ
  pub clients : u.Table

pub record State (u : Uthash ℕ) : Type 0 where
  pub files : List (File u)
  pub file_by_hash : u.Table
  pub file_by_name : u.Table
  -- the lists that `file_by_name` points to
  pub name_lists : List (List ℕ)
  pub clients : u.Table
  pub client_at : List (Option Client)
  -- the texts written to sockets, the last one at the end
  pub sent : List (ℕ × Bytes)

abbrev pub Cmd : Uthash ℕ → Type 0 → Type 0
Cmd u A = State u → Option (A × State u)

module _ {u : Uthash ℕ} where
  abbrev pub pure : {A : Type 0} → A → Cmd u A
  pure a s = some (a, s)

  infixl 5 ◌>>=◌ ◌>>◌
  abbrev pub ◌>>=◌ : {A B : Type 0} → Cmd u A → (A → Cmd u B) → Cmd u B
  ◌>>=◌ m f s = elim (m s) [ none ↦ none | some (a, s') ↦ f a s' ]

  abbrev pub ◌>>◌ : {B : Type 0} → Cmd u (Unit {0}) → Cmd u B → Cmd u B
  m >> k = m >>= λ _. k

  -- A change of the state that cannot fail.
  abbrev pub modify : (State u → State u) → Cmd u (Unit {0})
  modify f s = some (tt, f s)

  -- `*f` for a `struct file *`.
  unfoldable pub load_file : ℕ → Cmd u (File u)
  load_file f s = elim (get_elem? s.files f) [ none ↦ none | some x ↦ some (x, s) ]

  unfoldable pub store_file : ℕ → File u → Cmd u (Unit {0})
  store_file f x = modify (λ s. record s { files = set s.files f x })

  -- `*c` for a `struct client *` that was not freed.
  unfoldable pub load_client : ℕ → Cmd u Client
  load_client c s = elim (get_elem? s.client_at c) [
    | none ↦ none
    | some cell ↦ elim cell [ none ↦ none | some x ↦ some (x, s) ]
  ]

  unfoldable pub store_client : ℕ → Client → Cmd u (Unit {0})
  store_client c x = modify (λ s. record s { client_at = set s.client_at c (some x) })

  -- A `char *` that must not be NULL.
  unfoldable pub non_null : {A : Type 0} → Option A → Cmd u A
  non_null none s = none
  non_null (some a) s = some (a, s)

  -- One step of a command, for proofs where its parts stay shut.
  pub >>=-some :
      {A B : Type 0} (m : Cmd u A) (f : A → Cmd u B) (s : State u) {a : A} {s' : State u}
      → m s ≡ some (a, s')
      → (m >>= f) s ≡ f a s'
  >>=-some m f s e = rw (e, ◌>>=◌)

  pub >>=-none :
      {A B : Type 0} (m : Cmd u A) (f : A → Cmd u B) (s : State u) → m s ≡ none → (m >>= f) s ≡ none
  >>=-none m f s e = rw (e, ◌>>=◌)

  pub load_file_lem :
      (f : ℕ) (s : State u) {x : File u}
      → get_elem? s.files f ≡ some x
      → load_file f s ≡ some (x, s)
  unfolding load_file
  load_file_lem f s e = rw (e, load_file)

  pub load_client_lem :
      (c : ℕ) (s : State u) {k : Client}
      → get_elem? s.client_at c ≡ some (some k)
      → load_client c s ≡ some (k, s)
  unfolding load_client
  load_client_lem c s e = rw (e, load_client)

  -- What is read is there.
  pub load_client-eq_some :
      (c : ℕ) (s : State u) {k : Client} {s' : State u}
      → load_client c s ≡ some (k, s')
      → (get_elem? s.client_at c ≡ some (some k)) × (s' ≡ s)
  unfolding load_client
  load_client-eq_some c s h = elim (Option-cases (get_elem? s.client_at c)) [
    | inl e ↦ ground arith
    | inr (cell, e) ↦ elim (Option-cases cell) [
      | inl e' ↦ ground arith
      | inr (k, e') ↦ (ground arith, cc)
    ]
  ]
