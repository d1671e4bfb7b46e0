-- ===== src/Cutil/HashTable.antt =====
-- cutil/hash_table.c over uthash. `struct hash_table` is its uthash head; the read-write lock makes
-- each function one step and has no other effect here. A pointer that is stored is a value of `V`.
pub mod Keys
pub mod Laws
use raiezau.Base.{ℕ, Bool, true, false, Option, none, some, List, [], ◌∷◌}
use raiezau.Base.Bytes.{Bytes}
use raiezau.Cutil.Uthash.{Uthash}

-- The `int err` of these functions: 0 or -1.
pub data Status : Type 0 where
  success failure : Status

module _ {V : Type 0} (u : Uthash V) where
  open u use {Table, nil, entries, count, add, find, del}

  unfoldable pub entry_count : Table → ℕ
  entry_count h = count h

  unfoldable pub create : Table
  create = nil

  -- the key is added whether or not the table has it
  unfoldable pub add_entry : Table → Bytes → V → Table
  add_entry h key value = add key value h

  unfoldable pub add_unique_entry : Table → Bytes → V → Table × Status
  add_unique_entry h key value = elim (find key h) [
    | none ↦ (add key value h, success)
    | some entry ↦ (h, failure)
  ]

  unfoldable pub remove_entry : Table → Bytes → Table × Status
  remove_entry h key = elim (find key h) [ none ↦ (h, failure) | some entry ↦ (del key h, success) ]

  unfoldable pub has_entry : Table → Bytes → Bool
  has_entry h key = elim (find key h) [ none ↦ false | some entry ↦ true ]

  -- `*ret` is written exactly when the result is 0
  unfoldable pub get_entry : Table → Bytes → Option V
  get_entry h key = find key h

  -- the calls of `fun`, in order, on a state that `fun` may change
  unfoldable pub fold_entries {ℓ} : {S : Type ℓ} → (Bytes → V → S → S) → List (Bytes × V) → S → S
  fold_entries f [] s = s
  fold_entries f ((k, v) ∷ es) s = fold_entries f es (f k v s)

  unfoldable pub for_each {ℓ} : {S : Type ℓ} → Table → (Bytes → V → S → S) → S → S
  unfolding fold_entries
  for_each h f s = fold_entries f (entries h) s

  -- `list_add` puts in front
  unfoldable pub to_list : Table → List V
  unfolding fold_entries
  to_list h = fold_entries (λ k v l. v ∷ l) (entries h) []
