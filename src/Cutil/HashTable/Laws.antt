-- ===== src/Cutil/HashTable/Laws.antt =====
-- A table with distinct keys is a map: what each function of hash_table.c does to it.
use raiezau.Base.{
  ◌≡◌, ◌↔◌, refl, true, false, not, ◌&&◌, none, some, ◌++◌, arith, if◌then◌else◌, Option-cases, inl,
  inr,
}
use raiezau.Base.Bytes.{Bytes, str_eq, str_eq_refl, str_eq_iff}
use raiezau.Cutil.Uthash.{Uthash}
use raiezau.Cutil.HashTable.Keys.{
  lookup, Distinct, lookup-Lacks, Distinct-append, lookup_append, Distinct-middle, lookup_middle,
}
use raiezau.Cutil.HashTable.{
  success, failure, add_entry, add_unique_entry, remove_entry, get_entry, has_entry,
}

module _ {V : Type 0} (u : Uthash V) where
  open u use {Table, entries, find, add, del, find_none, find_some, entries-add}

  -- No two entries of the table have one key.
  abbrev pub IsMap : Table → Type 0
  IsMap h = Distinct (entries h)

  -- In a table with distinct keys uthash finds the one entry that has the key.
  pub get_entry-lookup : (h : Table) (k : Bytes) → IsMap h → get_entry u h k ≡ lookup k (entries h)
  unfolding get_entry
  get_entry-lookup h k d = elim (Option-cases (find k h)) [
    | inl e ↦ rw (e, lookup-Lacks k (entries h) (find_none k h e))
    | inr (v, e) ↦
        let (xs, ys, p, q) = find_some k h e in
        let (d', l) = Distinct-middle k v xs ys (rw p at d) in
        rw (e, p, lookup_middle k k v xs ys l, str_eq_refl k)
  ]

  pub has_entry-none : (h : Table) (k : Bytes) → get_entry u h k ≡ none → has_entry u h k ≡ false
  unfolding has_entry get_entry
  has_entry-none h k e = rw (has_entry, e) refl

  pub has_entry-some :
      (h : Table) (k : Bytes) {v : V} → get_entry u h k ≡ some v → has_entry u h k ≡ true
  unfolding has_entry get_entry
  has_entry-some h k e = rw (has_entry, e) refl

  -- `ht_add_entry` keeps the keys distinct if the new key is not yet there.
  pub add_entry-IsMap :
      (h : Table) (k : Bytes) (v : V) → IsMap h → get_entry u h k ≡ none → IsMap (add_entry u h k v)
  unfolding add_entry get_entry
  add_entry-IsMap h k v d e =
      rw (entries-add k v h) (Distinct-append k v (entries h) (find_none k h e) d)

  pub lookup-add_entry :
      (h : Table) (j k : Bytes) (v : V)
      → get_entry u h k ≡ none
      → lookup j (entries (add_entry u h k v))
        ≡ (if str_eq k j then some v else lookup j (entries h))
  unfolding add_entry get_entry
  lookup-add_entry h j k v e =
      rw (entries-add k v h) (lookup_append j k v (entries h) (find_none k h e))

  -- `ht_add_unique_entry` keeps the keys of a table with distinct keys distinct.
  pub add_unique_entry-IsMap :
      (h : Table) (k : Bytes) (v : V) → IsMap h → IsMap (add_unique_entry u h k v).0
  unfolding add_unique_entry
  add_unique_entry-IsMap h k v d = elim (Option-cases (find k h)) [
    | inl e ↦
        rw (e, add_unique_entry, entries-add k v h)
          (Distinct-append k v (entries h) (find_none k h e) d)
    | inr (w, e) ↦ rw (e, add_unique_entry) d
  ]

  -- `ht_remove_entry` keeps the keys of a table with distinct keys distinct.
  pub remove_entry-IsMap : (h : Table) (k : Bytes) → IsMap h → IsMap (remove_entry u h k).0
  unfolding remove_entry
  remove_entry-IsMap h k d = elim (Option-cases (find k h)) [
    | inl e ↦ rw (e, remove_entry) d
    | inr (v, e) ↦
        let (xs, ys, p, q) = find_some k h e in
        rw (e, remove_entry, q) (Distinct-middle k v xs ys (rw p at d)).0
  ]

  lookup-add_unique_entry :
      (h : Table) (j k : Bytes) (v : V)
      → lookup j (entries (add_unique_entry u h k v).0)
        ≡ (if str_eq k j && not (has_entry u h k) then some v else lookup j (entries h))
  unfolding add_unique_entry has_entry
  lookup-add_unique_entry h j k v = elim (Option-cases (find k h)) [
    | inl e ↦
        rw (e, add_unique_entry, entries-add k v h)
          (ground (arith, lookup_append j k v (entries h) (find_none k h e)))
    | inr (w, e) ↦ rw (e, add_unique_entry, has_entry) (ground arith)
  ]

  -- On a table with distinct keys `ht_add_unique_entry` binds a key that was free and leaves every
  -- other binding, an old one of the same key included, and it returns 0 exactly when the key was
  -- free.
  pub get_entry-add_unique_entry :
      (h : Table) (j k : Bytes) (v : V)
      → IsMap h
      → (get_entry u (add_unique_entry u h k v).0 j
          ≡ (if str_eq k j && not (has_entry u h k) then some v else get_entry u h j))
        × (((add_unique_entry u h k v).1 ≡ success) ↔ (get_entry u h k ≡ none))
  get_entry-add_unique_entry h j k v d = (
    rw
        (
          get_entry-lookup _ j (add_unique_entry-IsMap h k v d),
          lookup-add_unique_entry,
          ← get_entry-lookup h j d,
        )
        refl,
    unfold add_unique_entry get_entry in (ground arith, ground arith),
  )

  lookup-remove_entry :
      (h : Table) (j k : Bytes)
      → IsMap h
      → lookup j (entries (remove_entry u h k).0)
        ≡ (if str_eq k j then none else lookup j (entries h))
  unfolding remove_entry
  lookup-remove_entry h j k d = elim (Option-cases (find k h)) [
    | inl e ↦
        rw (e, remove_entry)
          (ground (arith, str_eq_iff k j, lookup-Lacks k (entries h) (find_none k h e)))
    | inr (v, e) ↦
        let (xs, ys, p, q) = find_some k h e in
        let (_, l) = Distinct-middle k v xs ys (rw p at d) in
        rw (e, remove_entry, q, p, lookup_middle j k v xs ys l)
          (ground (arith, str_eq_iff k j, lookup-Lacks k (xs ++ ys) l))
  ]

  -- On a table with distinct keys `ht_remove_entry` removes the binding of the key and no other,
  -- and it returns 0 exactly when the key was bound.
  pub get_entry-remove_entry :
      (h : Table) (j k : Bytes)
      → IsMap h
      → (get_entry u (remove_entry u h k).0 j ≡ (if str_eq k j then none else get_entry u h j))
        × (((remove_entry u h k).1 ≡ failure) ↔ (get_entry u h k ≡ none))
  get_entry-remove_entry h j k d = (
    rw
        (
          get_entry-lookup _ j (remove_entry-IsMap h k d),
          lookup-remove_entry h j k d,
          get_entry-lookup h j d,
        )
        refl,
    unfold remove_entry get_entry in (ground arith, ground arith),
  )
