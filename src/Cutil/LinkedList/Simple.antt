-- ===== src/Cutil/LinkedList/Simple.antt =====
-- `list_insert` of list.c keeps a list free of cycles.
use raiezau.Base.{
  ℕ, ◌+◌, ◌-◌, ◌≡◌, ◌<◌, refl, sym, ap, ◌∙◌, Option, some, arith, length, get_elem?, get_elem?-lt,
  get_elem?-of_lt, ◌==◌, leb, if◌then◌else◌, Bool-cases, inl, inr, ◌⊎◌,
}
use raiezau.Cutil.LinkedList.{Node, LinkedList, walk}

-- No node stands at two positions, and every node that a walk meets has its place.
pub record IsSimple (l : LinkedList) : Type 0 where
  pub once :
      (i j p : ℕ)
      → walk l.nodes i l.front_sentinel ≡ some p
      → walk l.nodes j l.front_sentinel ≡ some p
      → i ≡ j
  pub placed :
      (i p : ℕ)
      → walk l.nodes i l.front_sentinel ≡ some p
      → (c : Option Node) × (get_elem? l.nodes p ≡ some c)

-- A list whose walks are those of `l` with the node at `length l.nodes` put behind position `m`.
module _ (l l' : LinkedList) (m : ℕ) (simple : IsSimple l)
    (size : length l'.nodes ≡ length l.nodes + 1)
    (position : (i : ℕ)
      → walk l'.nodes i l'.front_sentinel ≡ (
          if leb i m
          then walk l.nodes i l.front_sentinel
          else if i == m + 1
          then some (length l.nodes)
          else walk l.nodes (i - 1) l.front_sentinel)) where
  old : (i p : ℕ) → walk l.nodes i l.front_sentinel ≡ some p → p < length l.nodes
  old i p e = let (c, at) = simple.placed i p e in get_elem?-lt l.nodes p at

  -- where a node of the new list comes from
  origin :
      (i p : ℕ)
      → walk l'.nodes i l'.front_sentinel ≡ some p
      → ((i ≡ m + 1) × (p ≡ length l.nodes))
        ⊎ ((k : ℕ) × (walk l.nodes k l.front_sentinel ≡ some p)
            × (i ≡ (if leb k m then k else k + 1)))
  origin i p h = elim (Bool-cases (leb i m)) [
    | inl e ↦
        let from : walk l.nodes i l.front_sentinel ≡ some p = rw (position i, e) at h in
        inr (i, from, rw e refl)
    | inr e ↦ elim (Bool-cases (i == m + 1)) [
      | inl f ↦
          let from : some (length l.nodes) ≡ some p = rw (position i, e, f) at h in
          inl (ground arith, ground arith)
      | inr f ↦
          let from : walk l.nodes (i - 1) l.front_sentinel ≡ some p = rw (position i, e, f) at h in
          inr (i - 1, from, ground arith)
    ]
  ]

  pub inserted-IsSimple : IsSimple l'
  inserted-IsSimple = record {
    once = λ i j p a b. elim (origin i p a) [
      | inl (at, new) ↦ elim (origin j p b) [
        | inl (at', _) ↦ omega arith
        | inr (k, from, _) ↦ let lt = old k p from in absurd (omega arith)
      ]
      | inr (k, from, at) ↦ elim (origin j p b) [
        | inl (_, new) ↦ let lt = old k p from in absurd (omega arith)
        | inr (k', from', at') ↦
            let same = simple.once k k' p from from' in
            at ∙ ap (λ n. if leb n m then n else n + 1) same ∙ sym at'
      ]
    ];
    placed = λ i p a.
        let lt : p < length l'.nodes = elim (origin i p a) [
          | inl (_, new) ↦ omega arith
          | inr (k, from, _) ↦ let lt = old k p from in omega arith
        ] in
        get_elem?-of_lt l'.nodes p lt;
  }
