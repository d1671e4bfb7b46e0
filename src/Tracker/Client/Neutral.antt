-- ===== src/Tracker/Client/Neutral.antt =====
-- The reference counts of the clients, and the commands that leave all of them as they are.
use raiezau.Base.{
  ℕ, ◌<◌, ◌≡◌, refl, sym, ap, ◌∙◌, Option, none, some, List, ◌==◌, arith, length, get_elem?, set,
  if◌then◌else◌, Bool-cases, Option-cases, inl, inr, ◌≢◌, get_elem?-set_self, get_elem?-set_ne,
  get_elem?-lt,
}
use raiezau.Cutil.Uthash.{Uthash}
use raiezau.Tracker.State.{
  State, Client, File, Cmd, pure, load_file, store_file, non_null, ◌>>=◌, load_client, store_client,
  load_client-eq_some,
}

-- The reference count in a cell of the heap, if there is a client in it.
unfoldable pub count_in : Option (Option Client) → Option ℕ
count_in none = none
count_in (some none) = none
count_in (some (some k)) = some k.ref_count

pub count-set :
    (cells : List (Option Client)) (c d : ℕ) (cell : Option Client)
    → c < length cells
    → count_in (get_elem? (set cells c cell) d)
      ≡ (if c == d then count_in (some cell) else count_in (get_elem? cells d))
count-set cells c d cell inside = elim (Bool-cases (c == d)) [
  | inl same ↦
      let eq : c ≡ d = ground arith in
      rw (same, ← eq) (ap count_in (get_elem?-set_self cells c cell inside))
  | inr other ↦
      let ne : c ≢ d = λ e. ground arith in
      rw other (ap count_in (get_elem?-set_ne cells c d cell ne))
]

module _ {u : Uthash ℕ} where
  -- The reference count of a client that was not freed.
  unfoldable pub refs : State u → ℕ → Option ℕ
  unfolding count_in
  refs s c = count_in (get_elem? s.client_at c)

  -- The two states have the same clients with the same counts.
  abbrev pub SameRefs : State u → State u → Type 0
  SameRefs s t = (c : ℕ) → refs t c ≡ refs s c

  pub cells-SameRefs : (s t : State u) → t.client_at ≡ s.client_at → SameRefs s t
  unfolding refs
  cells-SameRefs s t e c = ap (λ l. count_in (get_elem? l c)) e

  -- If the command returns, it has freed no client and changed no count.
  abbrev pub IsNeutral : {A : Type 0} → Cmd u A → Type 0
  IsNeutral {A} m = (s : State u) (a : A) (t : State u) → m s ≡ some (a, t) → SameRefs s t

  -- The two steps of a command that returns.
  pub >>=-steps :
      {A B : Type 0} (m : Cmd u A) (f : A → Cmd u B) (s : State u) {b : B} {t : State u}
      → (m >>= f) s ≡ some (b, t)
      → (a : A) × (s' : State u) × (m s ≡ some (a, s')) × (f a s' ≡ some (b, t))
  >>=-steps m f s h = elim (Option-cases (m s)) [
    | inl e ↦ ground arith
    | inr ((a, s'), e) ↦ (a, s', e, ground arith)
  ]

  pub >>=-IsNeutral :
      {A B : Type 0} (m : Cmd u A) (f : A → Cmd u B)
      → IsNeutral m
      → ((a : A) → IsNeutral (f a))
      → IsNeutral (m >>= f)
  >>=-IsNeutral m f hm hf s b t h c =
      let (a, s', e, e') = >>=-steps m f s h in hf a s' b t e' c ∙ hm s a s' e c

  -- A command that returns the state it was given, or one with the same clients.
  pub cells-IsNeutral :
      {A : Type 0} (m : Cmd u A)
      → ((s : State u) (a : A) (t : State u) → m s ≡ some (a, t) → t.client_at ≡ s.client_at)
      → IsNeutral m
  cells-IsNeutral m h s a t e = cells-SameRefs s t (h s a t e)

  pub pure-IsNeutral : {A : Type 0} (a : A) → IsNeutral (pure a)
  pure-IsNeutral a = cells-IsNeutral (pure a) (λ s b t e. ground arith)

  pub load_client-IsNeutral : (c : ℕ) → IsNeutral (load_client c)
  load_client-IsNeutral c =
      cells-IsNeutral (load_client c)
        (λ s k t e. ap (λ x. x.client_at) (load_client-eq_some c s e).1)

  pub refs_at :
      (c : ℕ) (s : State u) {k : Client}
      → get_elem? s.client_at c ≡ some (some k)
      → refs s c ≡ some k.ref_count
  unfolding refs count_in
  refs_at c s e = ap count_in e

  refs-lt : (c : ℕ) (s : State u) {n : ℕ} → refs s c ≡ some n → c < length s.client_at
  unfolding refs count_in
  refs-lt c s h = elim (Option-cases (get_elem? s.client_at c)) [
    | inl e ↦ ground arith
    | inr (cell, e) ↦ get_elem?-lt s.client_at c e
  ]

  -- A write to the cell of a client.
  pub refs_stored :
      (c : ℕ) (s : State u) (cell : Option Client) {n : ℕ}
      → refs s c ≡ some n
      → (d : ℕ)
      → refs (record s { client_at = set s.client_at c cell }) d
        ≡ (if c == d then count_in (some cell) else refs s d)
  unfolding refs
  refs_stored c s cell e d = count-set s.client_at c d cell (refs-lt c s e)

  -- A client's record is replaced, and its count stays.
  pub update-IsNeutral :
      (c : ℕ) (g : Client → Client)
      → ((k : Client) → (g k).ref_count ≡ k.ref_count)
      → IsNeutral (load_client c >>= λ k. store_client c (g k))
  unfolding store_client count_in
  update-IsNeutral c g same s a t h d =
      let (k, s1, e, e') = >>=-steps (load_client c) (λ k. store_client c (g k)) s h in
      let (at, eq) = load_client-eq_some c s e in
      let same_state : t ≡ record s { client_at = set s.client_at c (some (g k)) } = ground arith in
      ap (λ x. refs x d) same_state
      ∙ refs_stored c s (some (g k)) (refs_at c s at) d
      ∙ elim (Bool-cases (c == d)) [
        | inl e ↦ let eq : c ≡ d = ground arith in rw (e, same k, ← eq) (sym (refs_at c s at))
        | inr e ↦ rw e refl
      ]

  pub load_file-IsNeutral : (f : ℕ) → IsNeutral (load_file f)
  unfolding load_file
  load_file-IsNeutral f = cells-IsNeutral (load_file f) (λ s a t e. ground arith)

  pub store_file-IsNeutral : (f : ℕ) (x : File u) → IsNeutral (store_file f x)
  unfolding store_file
  store_file-IsNeutral f x = cells-IsNeutral (store_file f x) (λ s a t e. ground arith)

  pub non_null-IsNeutral : {A : Type 0} (o : Option A) → IsNeutral (non_null o)
  unfolding non_null
  non_null-IsNeutral o = cells-IsNeutral (non_null o) (λ s a t e. ground arith)
