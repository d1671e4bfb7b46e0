-- ===== src/Tracker/Config/Precedence.antt =====
-- Which options win.
use raiezau.Base.{
  ◌≡◌, refl, sym, ap, ◌∙◌, true, not, Option, none, some, List, [], ◌∷◌, arith, if◌then◌else◌,
  Option-cases, inl, inr,
}
use raiezau.Base.Bytes.{Bytes, str_eq, str_eq_iff}
use raiezau.Cutil.HashTable
use raiezau.Cutil.HashTable.Keys.{lookup}
use raiezau.Cutil.HashTable.Laws.{
  IsMap, has_entry-none, has_entry-some, get_entry-lookup, add_entry-IsMap, lookup-add_entry,
}
use raiezau.Cutil.Uthash.{Uthash}

-- What an option is, given its value on the command line and the pairs of the file.
unfoldable pub chosen : Option Bytes → Bytes → List (Bytes × Bytes) → Option Bytes
unfolding lookup
chosen none key ps = lookup key ps
chosen (some v) key ps = some v

chosen-nil : (found : Option Bytes) (key : Bytes) → chosen found key [] ≡ found
unfolding chosen lookup
chosen-nil none key = refl
chosen-nil (some v) key = refl

chosen-chosen :
    (found : Option Bytes) (key k v : Bytes) (ps : List (Bytes × Bytes))
    → chosen (chosen found key ((k, v) ∷ [])) key ps ≡ chosen found key ((k, v) ∷ ps)
unfolding chosen lookup
chosen-chosen none key k v ps = ground arith
chosen-chosen (some w) key k v ps = refl

module _ (key k v : Bytes) where
  chosen_free :
      (found : Option Bytes)
      → (str_eq k key ≡ true → found ≡ none)
      → (if str_eq k key then some v else found) ≡ chosen found key ((k, v) ∷ [])
  unfolding chosen lookup
  chosen_free none h = refl
  chosen_free (some w) h = ground (arith, h)

  chosen_taken :
      (found : Option Bytes) {w : Bytes}
      → (str_eq k key ≡ true → found ≡ some w)
      → found ≡ chosen found key ((k, v) ∷ [])
  unfolding chosen lookup
  chosen_taken none h = ground (arith, h)
  chosen_taken (some w) h = refl

module _ (o : Uthash Bytes) where
  -- a pair, if its key is free
  unfoldable pub put_free : Bytes → Bytes → o.Table → o.Table
  put_free k v options =
      if not (HashTable.has_entry o options k) then HashTable.add_entry o options k v else options

  same_key :
      (options : o.Table) (k key : Bytes)
      → IsMap o options
      → str_eq k key ≡ true
      → lookup key (o.entries options) ≡ HashTable.get_entry o options k
  same_key options k key d e = rw ((str_eq_iff k key).0 e) (sym (get_entry-lookup o options key d))

  put_free_lem :
      (k v : Bytes) (options : o.Table)
      → IsMap o options
      → IsMap o (put_free k v options)
        × ((key : Bytes)
            → lookup key (o.entries (put_free k v options))
              ≡ chosen (lookup key (o.entries options)) key ((k, v) ∷ []))
  unfolding put_free
  put_free_lem k v options d = elim (Option-cases (HashTable.get_entry o options k)) [
    | inl e ↦ rw (has_entry-none o options k e) (
      add_entry-IsMap o options k v d e,
      λ key.
          lookup-add_entry o options key k v e
          ∙ chosen_free key k v _ (λ t. same_key options k key d t ∙ e),
    )
    | inr (w, e) ↦
        rw (has_entry-some o options k e)
          (d, λ key. chosen_taken key k v _ (λ t. same_key options k key d t ∙ e))
  ]

  unfoldable pub add_free : List (Bytes × Bytes) → o.Table → o.Table
  add_free [] options = options
  add_free ((k, v) ∷ ps) options = add_free ps (put_free k v options)

  pub add_free_lem :
      (ps : List (Bytes × Bytes)) (options : o.Table)
      → IsMap o options
      → IsMap o (add_free ps options)
        × ((key : Bytes)
            → lookup key (o.entries (add_free ps options))
              ≡ chosen (lookup key (o.entries options)) key ps)
  unfolding add_free
  add_free_lem [] options d = (d, λ key. sym (chosen-nil _ key))
  add_free_lem ((k, v) ∷ ps) options d =
      let (d1, e1) = put_free_lem k v options d in
      let (d2, e2) = add_free_lem ps (put_free k v options) d1 in
      (d2, λ key. e2 key ∙ ap (λ found. chosen found key ps) (e1 key) ∙ chosen-chosen _ key k v ps)
