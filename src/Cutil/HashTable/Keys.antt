-- ===== src/Cutil/HashTable/Keys.antt =====
-- Lists of entries with distinct keys, read as maps.
use raiezau.Base.{◌≡◌, refl, false, Option, none, some, List, [], ◌∷◌, ◌++◌, arith, if◌then◌else◌}
use raiezau.Base.Bytes.{Bytes, str_eq, str_eq_iff}
use raiezau.Cutil.Uthash.{Lacks}

str_eq_sym : (a b : Bytes) → str_eq a b ≡ false → str_eq b a ≡ false
str_eq_sym a b h = ground (arith, str_eq_iff a b, str_eq_iff b a)

module _ {V : Type 0} where
  -- The map that the entries stand for: the first entry with the key.
  unfoldable pub lookup : Bytes → List (Bytes × V) → Option V
  lookup k [] = none
  lookup k ((j, v) ∷ m) = if str_eq j k then some v else lookup k m

  -- No two entries have one key.
  abbrev pub Distinct : List (Bytes × V) → Type 0
  Distinct [] = Unit
  Distinct ((k, v) ∷ m) = Lacks k m × Distinct m

module _ {V : Type 0} where
  pub lookup-Lacks : (k : Bytes) (m : List (Bytes × V)) → Lacks k m → lookup k m ≡ none
  unfolding lookup
  lookup-Lacks k [] h = refl
  lookup-Lacks k ((j, v) ∷ m) (n, h) = rw n (lookup-Lacks k m h)

  Lacks-append_one :
      (j k : Bytes) (v : V) (m : List (Bytes × V))
      → Lacks j m
      → str_eq k j ≡ false
      → Lacks j (m ++ (k, v) ∷ [])
  Lacks-append_one j k v [] h n = (n, tt)
  Lacks-append_one j k v (e ∷ m) (p, h) n = (p, Lacks-append_one j k v m h n)

  pub Distinct-append :
      (k : Bytes) (v : V) (m : List (Bytes × V))
      → Lacks k m
      → Distinct m
      → Distinct (m ++ (k, v) ∷ [])
  Distinct-append k v [] h d = (tt, tt)
  Distinct-append k v ((j, w) ∷ m) (n, h) (lj, d) =
      (Lacks-append_one j k v m lj (str_eq_sym j k n), Distinct-append k v m h d)

  pub lookup_append :
      (j k : Bytes) (v : V) (m : List (Bytes × V))
      → Lacks k m
      → lookup j (m ++ (k, v) ∷ []) ≡ (if str_eq k j then some v else lookup j m)
  unfolding lookup
  lookup_append j k v [] h = refl
  lookup_append j k v ((i, w) ∷ m) (n, h) =
      ground (arith, lookup_append j k v m h, str_eq_iff k j, str_eq_iff i j, str_eq_iff i k)

  Lacks-middle :
      (j k : Bytes) (v : V) (xs ys : List (Bytes × V))
      → Lacks j (xs ++ (k, v) ∷ ys)
      → Lacks j (xs ++ ys) × (str_eq k j ≡ false)
  Lacks-middle j k v [] ys (n, h) = (h, n)
  Lacks-middle j k v (e ∷ xs) ys (n, h) = let (a, b) = Lacks-middle j k v xs ys h in ((n, a), b)

  pub Distinct-middle :
      (k : Bytes) (v : V) (xs ys : List (Bytes × V))
      → Distinct (xs ++ (k, v) ∷ ys)
      → Distinct (xs ++ ys) × Lacks k (xs ++ ys)
  Distinct-middle k v [] ys (l, d) = (d, l)
  Distinct-middle k v ((j, w) ∷ xs) ys (l, d) =
      let (d', l') = Distinct-middle k v xs ys d in
      let (lj, n) = Lacks-middle j k v xs ys l in ((lj, d'), (str_eq_sym k j n, l'))

  pub lookup_middle :
      (j k : Bytes) (v : V) (xs ys : List (Bytes × V))
      → Lacks k (xs ++ ys)
      → lookup j (xs ++ (k, v) ∷ ys) ≡ (if str_eq k j then some v else lookup j (xs ++ ys))
  unfolding lookup
  lookup_middle j k v [] ys h = refl
  lookup_middle j k v ((i, w) ∷ xs) ys (n, h) =
      ground (arith, lookup_middle j k v xs ys h, str_eq_iff k j, str_eq_iff i j, str_eq_iff i k)
