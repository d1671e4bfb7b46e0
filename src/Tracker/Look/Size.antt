-- ===== src/Tracker/Look/Size.antt =====
-- A criterion on the size of a file, `filesize` with an operator and a quoted value, is looked at by
-- six processors in a row; only one of them filters.
use raiezau.Base.{
  ℕ, ◌≡◌, ◌≢◌, ◌⊎◌, refl, false, none, some, List, [], ◌∷◌, ◌++◌, ◌==◌, arith, inl, inr, All,
  All-append,
}
use raiezau.Base.Bytes.{Bytes, codes, str_eq}
use raiezau.Cutil.Text.{string_split2, strstr, strstripc}
use raiezau.Cutil.Text.Copies.{strstripc_lem}
use raiezau.Cutil.Text.Pieces.{string_split2_one, string_split2_two}
use raiezau.Cutil.Uthash.{Uthash}
use raiezau.Tracker.Env.{atol}
use raiezau.Tracker.Look.{
  Operator, eq, neq, geq, leq, lt, gt, text, compare_size, compare_name, process_list, select,
  process_criterion_op, process_criterion,
}
use raiezau.Tracker.State.{File}

-- No byte begins an operator.
abbrev pub Plain : Bytes → Type 0
Plain = All (λ c. (c ≢ b'=') × (c ≢ b'!') × (c ≢ b'<') × (c ≢ b'>'))

-- `filesize`, the operator, and the value in quotes.
unfoldable pub criterion : Operator → Bytes → Bytes
criterion op value = codes "filesize" ++ (text op ++ (value ++ codes "\""))

strstr_absent : (d : ℕ) (ds s : Bytes) → All (λ c. c ≢ d) s → strstr (d ∷ ds) s ≡ none
unfolding strstr
strstr_absent d ds [] h = refl
strstr_absent d ds (c ∷ s) (n, h) =
    let test : (d == c) ≡ false = ground arith in rw (test, strstr, strstr_absent d ds s h) refl

quoted : Bytes → Bytes
quoted value = value ++ codes "\""

quoted-Plain : (value : Bytes) → Plain value → Plain (quoted value)
unfolding quoted
quoted-Plain value h = All-append _ value (codes "\"") h (omega arith)

All-mono {ℓ κ} :
    {A : Type 0} {P : A → Type ℓ} {Q : A → Type κ} (xs : List A)
    → ((x : A) → P x → Q x)
    → All P xs
    → All Q xs
All-mono [] f h = tt
All-mono (x ∷ xs) f (p, h) = (f x p, All-mono xs f h)

module _ (value : Bytes) (plain : Plain value) where
  absent : (op : Operator) → strstr (text op) (quoted value) ≡ none
  unfolding text
  absent eq =
      strstr_absent b'=' _ (quoted value)
        (All-mono (quoted value) (λ c h. h.0) (quoted-Plain value plain))
  absent neq =
      strstr_absent b'!' _ (quoted value)
        (All-mono (quoted value) (λ c h. h.1) (quoted-Plain value plain))
  absent geq =
      strstr_absent b'>' _ (quoted value)
        (All-mono (quoted value) (λ c h. h.3) (quoted-Plain value plain))
  absent leq =
      strstr_absent b'<' _ (quoted value)
        (All-mono (quoted value) (λ c h. h.2) (quoted-Plain value plain))
  absent lt =
      strstr_absent b'<' _ (quoted value)
        (All-mono (quoted value) (λ c h. h.2) (quoted-Plain value plain))
  absent gt =
      strstr_absent b'>' _ (quoted value)
        (All-mono (quoted value) (λ c h. h.3) (quoted-Plain value plain))

  own :
      (op : Operator)
      → strstr (text op) (criterion op value) ≡ some (codes "filesize", quoted value)
  unfolding strstr text criterion quoted
  own eq = refl
  own neq = refl
  own geq = refl
  own leq = refl
  own lt = refl
  own gt = refl

  split_own :
      (op : Operator)
      → string_split2 (criterion op value) (text op) ≡ codes "filesize" ∷ quoted value ∷ []
  unfolding criterion
  split_own op =
      string_split2_two (text op) b'f' _ (codes "filesize") (quoted value) (own op) (absent op)

  -- Another operator does not occur, or (`="` behind `!`, `>` or `<`) it leaves a field that no
  -- processor knows.
  missing :
      (op other : Operator)
      → op ≢ other
      → (strstr (text other) (criterion op value) ≡ none)
        ⊎ ((field : Bytes) × (strstr (text other) (criterion op value) ≡ some (field, quoted value))
            × (str_eq field (codes "filesize") ≡ false)
            × (str_eq field (codes "filename") ≡ false))
  unfolding strstr criterion text quoted str_eq
  missing eq eq ne = inl (absurd (ne refl))
  missing eq neq ne = inl (rw (absent neq))
  missing eq geq ne = inl (rw (absent geq))
  missing eq leq ne = inl (rw (absent leq))
  missing eq lt ne = inl (rw (absent lt))
  missing eq gt ne = inl (rw (absent gt))
  missing neq eq ne = inr (codes "filesize!", refl, refl, refl)
  missing neq neq ne = inl (absurd (ne refl))
  missing neq geq ne = inl (rw (absent geq))
  missing neq leq ne = inl (rw (absent leq))
  missing neq lt ne = inl (rw (absent lt))
  missing neq gt ne = inl (rw (absent gt))
  missing geq eq ne = inr (codes "filesize>", refl, refl, refl)
  missing geq neq ne = inl (rw (absent neq))
  missing geq geq ne = inl (absurd (ne refl))
  missing geq leq ne = inl (rw (absent leq))
  missing geq lt ne = inl (rw (absent lt))
  missing geq gt ne = inl (rw (absent gt))
  missing leq eq ne = inr (codes "filesize<", refl, refl, refl)
  missing leq neq ne = inl (rw (absent neq))
  missing leq geq ne = inl (rw (absent geq))
  missing leq leq ne = inl (absurd (ne refl))
  missing leq lt ne = inl (rw (absent lt))
  missing leq gt ne = inl (rw (absent gt))
  missing lt eq ne = inl (rw (absent eq))
  missing lt neq ne = inl (rw (absent neq))
  missing lt geq ne = inl (rw (absent geq))
  missing lt leq ne = inl (rw (absent leq))
  missing lt lt ne = inl (absurd (ne refl))
  missing lt gt ne = inl (rw (absent gt))
  missing gt eq ne = inl (rw (absent eq))
  missing gt neq ne = inl (rw (absent neq))
  missing gt geq ne = inl (rw (absent geq))
  missing gt leq ne = inl (rw (absent leq))
  missing gt lt ne = inl (rw (absent lt))
  missing gt gt ne = inl (absurd (ne refl))

  split_other :
      (op other : Operator) (field : Bytes)
      → strstr (text other) (criterion op value) ≡ some (field, quoted value)
      → string_split2 (criterion op value) (text other) ≡ field ∷ quoted value ∷ []
  unfolding criterion
  split_other op other field e =
      string_split2_two (text other) b'f' _ field (quoted value) e (absent other)

  strip_quote : strstripc (quoted value) b'"' ≡ some value
  unfolding quoted
  strip_quote = (strstripc_lem b'"' b'"' value).0

  module _ (u : Uthash ℕ) (files : List (File u)) (l : List ℕ) where
    select_other :
        (op : Operator) (field : Bytes)
        → str_eq field (codes "filesize") ≡ false
        → str_eq field (codes "filename") ≡ false
        → select u files op field value l ≡ l
    unfolding select compare_name
    select_other eq field a b = rw (a, b)
    select_other neq field a b = rw (a, b)
    select_other geq field a b = rw a
    select_other leq field a b = rw a
    select_other lt field a b = rw a
    select_other gt field a b = rw a

    select_size :
        (op : Operator)
        → select u files op (codes "filesize") value l
          ≡ process_list u files (λ f. compare_size op f.length (atol value)) l []
    unfolding select compare_name str_eq
    select_size eq = refl
    select_size neq = refl
    select_size geq = refl
    select_size leq = refl
    select_size lt = refl
    select_size gt = refl

    process_own :
        (op : Operator)
        → process_criterion_op u files op (criterion op value) l
          ≡ some (process_list u files (λ f. compare_size op f.length (atol value)) l [])
    process_own op =
        unfold process_criterion_op in
        rw (split_own op, process_criterion_op, strip_quote, select_size op) refl

    process_other :
        (op other : Operator)
        → op ≢ other
        → process_criterion_op u files other (criterion op value) l ≡ some l
    process_other op other ne = elim (missing op other ne) [
      | inl e ↦
          unfold process_criterion_op in
          rw (string_split2_one (text other) (criterion op value) e, process_criterion_op) refl
      | inr (field, e, a, b) ↦
          unfold process_criterion_op in
          rw
            (
              split_other op other field e,
              process_criterion_op,
              strip_quote,
              select_other other field a b,
            )
            refl
    ]

  unfoldable pub kept : (u : Uthash ℕ) (files : List (File u)) → Operator → List ℕ → List ℕ
  kept u files op l = process_list u files (λ f. compare_size op f.length (atol value)) l []

  -- Of the six processors that look at the criterion only the operator's own changes the list.
  pub process_criterion-size :
      (u : Uthash ℕ) (files : List (File u)) (op : Operator) (l : List ℕ)
      → process_criterion u files (criterion op value) l ≡ some (kept u files op l)
  unfolding process_criterion kept
  process_criterion-size u files eq l =
      rw
        (
          process_other u files l eq neq (cc),
          process_other u files l eq geq (cc),
          process_other u files l eq leq (cc),
          process_own u files l eq,
          process_other u files (kept u files eq l) eq lt (cc),
          process_other u files (kept u files eq l) eq gt (cc),
        )
        refl
  process_criterion-size u files neq l =
      rw
        (
          process_own u files l neq,
          process_other u files (kept u files neq l) neq geq (cc),
          process_other u files (kept u files neq l) neq leq (cc),
          process_other u files (kept u files neq l) neq eq (cc),
          process_other u files (kept u files neq l) neq lt (cc),
          process_other u files (kept u files neq l) neq gt (cc),
        )
        refl
  process_criterion-size u files geq l =
      rw
        (
          process_other u files l geq neq (cc),
          process_own u files l geq,
          process_other u files (kept u files geq l) geq leq (cc),
          process_other u files (kept u files geq l) geq eq (cc),
          process_other u files (kept u files geq l) geq lt (cc),
          process_other u files (kept u files geq l) geq gt (cc),
        )
        refl
  process_criterion-size u files leq l =
      rw
        (
          process_other u files l leq neq (cc),
          process_other u files l leq geq (cc),
          process_own u files l leq,
          process_other u files (kept u files leq l) leq eq (cc),
          process_other u files (kept u files leq l) leq lt (cc),
          process_other u files (kept u files leq l) leq gt (cc),
        )
        refl
  process_criterion-size u files lt l =
      rw
        (
          process_other u files l lt neq (cc),
          process_other u files l lt geq (cc),
          process_other u files l lt leq (cc),
          process_other u files l lt eq (cc),
          process_own u files l lt,
          process_other u files (kept u files lt l) lt gt (cc),
        )
        refl
  process_criterion-size u files gt l =
      rw
        (
          process_other u files l gt neq (cc),
          process_other u files l gt geq (cc),
          process_other u files l gt leq (cc),
          process_other u files l gt eq (cc),
          process_other u files l gt lt (cc),
          process_own u files l gt,
        )
        refl
