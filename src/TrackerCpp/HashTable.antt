-- ===== src/TrackerCpp/HashTable.antt =====
-- tracker_cpp/common/containers/HashTable.cpp over uthash. The constructor leaves `m_head` as it is in
-- memory: `none` is a pointer to no table, and an operation that follows it is `none`. The read-write
-- lock makes each function one step. A pointer that is stored is a value of `V`.
use raiezau.Base.{ℕ, Bool, true, false, Option, none, some}
use raiezau.Base.Bytes.{Bytes}
use raiezau.Cutil.HashTable.{fold_entries}
use raiezau.Cutil.Uthash.{Uthash}

-- `HashTable`, but for its lock
pub record HashMap {V : Type 0} (u : Uthash V) : Type 0 where
  pub m_head : Option u.Table

module _ {V : Type 0} (u : Uthash V) where
  open u use {Table, entries, count, add, find, del}

  -- `HashTable::HashTable`, where `memory` is what the place of `m_head` holds
  unfoldable pub new_hash_table : (memory : Option Table) → (size : ℕ) → HashMap u
  new_hash_table memory size = record { m_head = memory }

  -- `HASH_COUNT`, which reads the table behind the pointer
  unfoldable pub entry_count : HashMap u → Option ℕ
  entry_count h = elim h.m_head [ none ↦ none | some t ↦ some (count t) ]

  -- the key is added whether or not the table has it
  unfoldable pub add_entry : HashMap u → Bytes → V → Option (Bool × HashMap u)
  add_entry h key value = elim h.m_head [
    | none ↦ none
    | some t ↦ some (true, record { m_head = some (add key value t) })
  ]

  -- the result is whether the table had the key
  unfoldable pub add_unique_entry : HashMap u → Bytes → V → Option (Bool × HashMap u)
  add_unique_entry h key value = elim h.m_head [
    | none ↦ none
    | some t ↦ elim (find key t) [
      | none ↦ some (false, record { m_head = some (add key value t) })
      | some entry ↦ some (true, h)
    ]
  ]

  unfoldable pub remove_entry : HashMap u → Bytes → Option (Bool × HashMap u)
  remove_entry h key = elim h.m_head [
    | none ↦ none
    | some t ↦ elim (find key t) [
      | none ↦ some (false, h)
      | some entry ↦ some (true, record { m_head = some (del key t) })
    ]
  ]

  unfoldable pub has_entry : HashMap u → Bytes → Option Bool
  has_entry h key = elim h.m_head [
    | none ↦ none
    | some t ↦ some (elim (find key t) [ none ↦ false | some entry ↦ true ])
  ]

  -- `*ret` is written exactly when the result is true
  unfoldable pub get_entry : HashMap u → Bytes → Option (Option V)
  get_entry h key = elim h.m_head [ none ↦ none | some t ↦ some (find key t) ]

  -- the calls of `func`, in order, on a state that `func` may change
  unfoldable pub for_each {ℓ} : {S : Type ℓ} → HashMap u → (Bytes → V → S → S) → S → Option S
  unfolding fold_entries
  for_each h f s = elim h.m_head [ none ↦ none | some t ↦ some (fold_entries u f (entries t) s) ]
