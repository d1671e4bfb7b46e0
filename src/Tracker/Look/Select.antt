-- ===== src/Tracker/Look/Select.antt =====
-- A `look` request with criteria on the size selects the files that meet all of them.
use raiezau.Base.{
  ℕ, ◌+◌, ◌≡◌, ◌≢◌, ltb, leb, not, ◌||◌, refl, ap, ◌∙◌, Bool, true, false, ◌&&◌, none, some, List,
  [], ◌∷◌, ◌==◌, arith, if◌then◌else◌, get_elem?, Bool-cases, inl, inr, All, All-append,
  Option-cases,
}
use raiezau.Base.Bytes.{Bytes, codes}
use raiezau.Cutil.Text.{character_is_in_string}
use raiezau.Cutil.Text.Tokens.{Free, IsToken, join, string_split-join}
use raiezau.Cutil.Uthash.{Uthash}
use raiezau.Tracker.Env.{atol}
use raiezau.Tracker.File.{file_list}
use raiezau.Tracker.Look.{
  Operator, eq, neq, geq, leq, lt, gt, text, compare_size, process_list, process_criterion,
  process_criterions, prot_look_process_criterions,
}
use raiezau.Tracker.Look.Size.{Plain, criterion, kept, process_criterion-size}
use raiezau.Tracker.State.{File, State}

-- How often a pointer is in a list.
pub count : ℕ → List ℕ → ℕ
count p [] = 0
count p (q ∷ l) = (if q == p then 1 else 0) + count p l

module _ {u : Uthash ℕ} (files : List (File u)) where
  passes : (File u → Bool) → ℕ → Bool
  passes keep p = elim (get_elem? files p) [ none ↦ false | some f ↦ keep f ]

  process_list_step :
      (keep : File u → Bool) (q : ℕ) (l new : List ℕ)
      → process_list u files keep (q ∷ l) new
        ≡ process_list u files keep l (if passes keep q then q ∷ new else new)
  process_list_step keep q l new = elim (Option-cases (get_elem? files q)) [
    | inl e ↦ unfold process_list passes in rw (e, passes) refl
    | inr (f, e) ↦ unfold process_list passes in rw (e, passes) refl
  ]

  count-process_list :
      (keep : File u → Bool) (p : ℕ) (l new : List ℕ)
      → count p (process_list u files keep l new)
        ≡ (if passes keep p then count p l else 0) + count p new
  unfolding count
  count-process_list keep p [] new = unfold process_list in ground arith
  count-process_list keep p (q ∷ l) new =
      ap (count p) (process_list_step keep q l new)
      ∙ count-process_list keep p l (if passes keep q then q ∷ new else new)
      ∙ elim (Bool-cases (q == p)) [
        | inl e ↦ let same : q ≡ p = ground arith in rw same (ground arith)
        | inr e ↦ ground arith
      ]

-- A value as a request gives it: no byte of it begins an operator, and none is a space.
abbrev pub IsValue : Bytes → Type 0
IsValue value = Plain value × All (λ c. c ≢ b' ') value

abbrev pub space : Bytes
space = codes " "

free : (c : ℕ) → c ≢ b' ' → character_is_in_string c space ≡ false
unfolding character_is_in_string
free c h = ground arith

Free_lem : (s : Bytes) → All (λ c. c ≢ b' ') s → Free space s
Free_lem [] h = tt
Free_lem (c ∷ s) (n, h) = (free c n, Free_lem s h)

text_spaces : (op : Operator) → All (λ c. c ≢ b' ') (text op)
unfolding text
text_spaces eq = omega arith
text_spaces neq = omega arith
text_spaces geq = omega arith
text_spaces leq = omega arith
text_spaces lt = omega arith
text_spaces gt = omega arith

criterion-IsToken :
    (op : Operator) (value : Bytes) → IsValue value → IsToken space (criterion op value)
unfolding criterion
criterion-IsToken op value (plain, spaces) = (
  cc,
  Free_lem (criterion op value) (
      All-append _ (codes "filesize") _ (omega arith) (
        All-append _ (text op) _ (text_spaces op)
          (All-append _ value (codes "\"") spaces (omega arith)))),
)

-- The criteria of a request, each an operator and a value.
abbrev pub Criteria : Type 0
Criteria = List (Operator × Bytes)

texts : Criteria → List Bytes
texts [] = []
texts ((op, value) ∷ cs) = criterion op value ∷ texts cs

-- The request: the criteria with a space between them.
pub request : Criteria → Bytes
unfolding texts
request cs = join space b' ' (texts cs)

-- What an operator says of a size and a value.
pub related : Operator → ℕ → ℕ → Bool
related eq size value = size == value
related neq size value = ltb size value || ltb value size
related geq size value = not (ltb size value)
related leq size value = not (ltb value size)
related lt size value = leb (size + 1) value
related gt size value = leb (value + 1) size

compare_size-related :
    (op : Operator) (size value : ℕ) → compare_size op size value ≡ related op size value
unfolding compare_size related
compare_size-related eq size value = refl
compare_size-related neq size value = ground arith
compare_size-related geq size value = ground arith
compare_size-related leq size value = ground arith
compare_size-related lt size value = ground arith
compare_size-related gt size value = ground arith

passes-related :
    {u : Uthash ℕ} (files : List (File u)) (op : Operator) (value p : ℕ)
    → passes files (λ f. compare_size op f.length value) p
      ≡ passes files (λ f. related op f.length value) p
passes-related files op value p = elim (Option-cases (get_elem? files p)) [
  | inl e ↦ unfold passes in rw (e, passes) refl
  | inr (f, e) ↦ unfold passes in rw (e, passes) (compare_size-related op f.length value)
]

-- Whether the file at `p` meets every criterion.
pub meets : {u : Uthash ℕ} → List (File u) → Criteria → ℕ → Bool
unfolding passes
meets files [] p = true
meets files ((op, value) ∷ cs) p =
    passes files (λ f. related op f.length (atol value)) p && meets files cs p

if-and : (a b : Bool) (n : ℕ) → (if b then (if a then n else 0) else 0) ≡ (if a && b then n else 0)
if-and true b n = refl
if-and false true n = refl
if-and false false n = refl

module _ (u : Uthash ℕ) where
  step :
      (files : List (File u)) (op : Operator) (value : Bytes) (cs : Criteria) (l : List ℕ)
      {l' : List ℕ}
      → process_criterion u files (criterion op value) l ≡ some l'
      → process_criterions u files (texts ((op, value) ∷ cs)) l
        ≡ process_criterions u files (texts cs) l'
  step files op value cs l e = unfold process_criterions texts in rw (e, process_criterions) refl

  count-kept :
      (files : List (File u)) (op : Operator) (value : Bytes) (plain : Plain value) (l : List ℕ)
      (p : ℕ)
      → count p (kept value plain u files op l)
        ≡ (if passes files (λ f. related op f.length (atol value)) p then count p l else 0)
  unfolding kept count
  count-kept files op value plain l p =
      rw (← passes-related files op (atol value) p) (
        omega (arith, count-process_list files (λ f. compare_size op f.length (atol value)) p l []))

  process_criterions_lem :
      (files : List (File u)) (cs : Criteria) (l : List ℕ)
      → All (λ c. IsValue c.1) cs
      → (l' : List ℕ) × (process_criterions u files (texts cs) l ≡ some l')
        × ((p : ℕ) → count p l' ≡ (if meets files cs p then count p l else 0))
  process_criterions_lem files [] l h =
      (l, unfold process_criterions texts in refl, λ p. unfold meets in refl)
  process_criterions_lem files ((op, value) ∷ cs) l ((plain, _), hs) =
      let one = process_criterion-size value plain u files op l in
      let (l', e, counts) = process_criterions_lem files cs (kept value plain u files op l) hs in
      (
        l',
        step files op value cs l one ∙ e,
        λ p.
            counts p
            ∙ ap (λ n. if meets files cs p then n else 0) (count-kept files op value plain l p)
            ∙ if-and (passes files (λ f. related op f.length (atol value)) p) (meets files cs p)
                (count p l)
            ∙ unfold meets in refl,
      )

  texts-IsToken : (cs : Criteria) → All (λ c. IsValue c.1) cs → All (IsToken space) (texts cs)
  unfolding texts
  texts-IsToken [] h = tt
  texts-IsToken ((op, value) ∷ cs) (v, h) = (criterion-IsToken op value v, texts-IsToken cs h)

  -- A `look` request with any number of criteria on the size selects exactly the files of the
  -- tracker that meet all of them, each as often as the tracker lists it; it never fails. The values
  -- may be any text without a space, `=`, `!`, `<` or `>`: sizes are read by `atol`, and compared as
  -- unsigned 64-bit numbers.
  pub prot_look_process_criterions_lem :
      (s : State u) (cs : Criteria)
      → All (λ c. IsValue c.1) cs
      → (l : List ℕ) × (prot_look_process_criterions u s (request cs) ≡ some l)
        × ((p : ℕ) → count p l ≡ (if meets s.files cs p then count p (file_list u s) else 0))
  unfolding character_is_in_string
  prot_look_process_criterions_lem s cs h =
      let (l, e, counts) = process_criterions_lem s.files cs (file_list u s) h in
      (
        l,
        unfold prot_look_process_criterions request in
            rw (string_split-join space b' ' (texts cs) refl (texts-IsToken cs h)) e,
        counts,
      )
