-- ===== src/Cutil/LinkedList/Linked.antt =====
-- The nodes of a list after one more was linked behind another, as `list_insert` of list.c does it.
use raiezau.Base.{
  ℕ, zero, suc, ◌≡◌, ◌≢◌, ◌<◌, ◌+◌, refl, sym, ap, ◌∙◌, Option, none, some, List, [], ◌∷◌, ◌++◌,
  arith, length, get_elem?, set, get_elem?-set_ne, get_elem?-set_self, get_elem?-append_left,
  get_elem?-append_length, get_elem?-lt, length-append, length-set, false, ◌==◌, if◌then◌else◌,
  Bool-cases, Option-cases, inl, inr,
}
use raiezau.Cutil.LinkedList.{Node, load_node, node_get_next, walk}
use raiezau.Cutil.LinkedList.Cursor.{walk-suc, walk_stuck}

get_elem?-snoc_ne :
    {A : Type 0} (xs : List A) (v : A) (p : ℕ)
    → p ≢ length xs
    → get_elem? (xs ++ v ∷ []) p ≡ get_elem? xs p
get_elem?-snoc_ne [] v zero ne = absurd (ne refl)
get_elem?-snoc_ne [] v (suc p) ne = refl
get_elem?-snoc_ne (x ∷ xs) v zero ne = refl
get_elem?-snoc_ne (x ∷ xs) v (suc p) ne = get_elem?-snoc_ne xs v p (omega arith)

-- The element of a node.
pub element_of : List (Option Node) → ℕ → Option ℕ
element_of nodes p = elim (load_node nodes p) [ none ↦ none | some x ↦ some x.element ]

element_of-eq :
    (nodes nodes' : List (Option Node)) (p : ℕ)
    → get_elem? nodes p ≡ get_elem? nodes' p
    → element_of nodes p ≡ element_of nodes' p
unfolding element_of load_node
element_of-eq nodes nodes' p e = rw (element_of, load_node, e) refl

module _ (nodes : List (Option Node)) (previous element next : ℕ) (x : Node) where
  abbrev pub new : Node
  new = record { element = element; next = some next; is_sentinel = false }

  -- the nodes after `link_behind`
  abbrev pub linked : List (Option Node)
  linked = set (nodes ++ some new ∷ []) previous (some (record x { next = some (length nodes) }))

  pub length-linked : length linked ≡ length nodes + 1
  length-linked =
      length-set (nodes ++ some new ∷ []) previous _ ∙ length-append nodes (some new ∷ [])

  -- a place that holds a node, or did, other than the one that the new node is put behind
  abbrev pub IsOther : ℕ → Type 0
  IsOther p = (p ≢ previous) × ((c : Option Node) × (get_elem? nodes p ≡ some c))

  next-other : (p : ℕ) → IsOther p → node_get_next linked p ≡ node_get_next nodes p
  unfolding node_get_next load_node
  next-other p (ne, (c, at)) =
      let same : get_elem? linked p ≡ some c =
        get_elem?-set_ne (nodes ++ some new ∷ []) previous p _ (λ e. ne (sym e))
        ∙ get_elem?-append_left nodes (some new ∷ []) p at in
      rw (node_get_next, load_node, same, at) refl

  -- A walk that meets only other places is not changed.
  pub walk-other :
      (k p : ℕ)
      → ((i q : ℕ) → i < k → walk nodes i p ≡ some q → IsOther q)
      → walk linked k p ≡ walk nodes k p
  walk-other zero p h = unfold walk in refl
  walk-other (suc k) p h =
      let same = next-other p (h 0 p (omega arith) (unfold walk in refl)) in
      elim (Option-cases (node_get_next nodes p)) [
        | inl e ↦ walk_stuck linked k p (same ∙ e) ∙ sym (walk_stuck nodes k p e)
        | inr (r, e) ↦
            walk-suc linked k p (same ∙ e)
            ∙ walk-other k r (λ i q lt at. h (suc i) q (omega arith) (walk-suc nodes i p e ∙ at))
            ∙ sym (walk-suc nodes k p e)
      ]

  module _ (at : get_elem? nodes previous ≡ some (some x)) where
    pub next-previous : node_get_next linked previous ≡ some (length nodes)
    unfolding node_get_next load_node
    next-previous =
        let lt = get_elem?-lt nodes previous at in
        rw
          (
            node_get_next,
            load_node,
            get_elem?-set_self (nodes ++ some new ∷ []) previous
                (some (record x { next = some (length nodes) }))
                (omega (arith, length-append nodes (some new ∷ []))),
          )
          refl

    place-new : get_elem? linked (length nodes) ≡ some (some new)
    place-new =
        let lt = get_elem?-lt nodes previous at in
        get_elem?-set_ne (nodes ++ some new ∷ []) previous (length nodes) _ (omega arith)
        ∙ get_elem?-append_length nodes [] (some new)

    pub next-new : node_get_next linked (length nodes) ≡ some next
    unfolding node_get_next load_node
    next-new = rw (node_get_next, load_node, place-new) refl

    element_of-new : element_of linked (length nodes) ≡ some element
    unfolding element_of load_node
    element_of-new = rw (element_of, load_node, place-new) refl

    element_of-previous : element_of linked previous ≡ element_of nodes previous
    unfolding element_of load_node
    element_of-previous =
        let lt = get_elem?-lt nodes previous at in
        rw
          (
            element_of,
            load_node,
            at,
            get_elem?-set_self (nodes ++ some new ∷ []) previous
                (some (record x { next = some (length nodes) }))
                (omega (arith, length-append nodes (some new ∷ []))),
          )
          refl

    -- Every node keeps its element, and the new one has the new element.
    pub element_of-linked :
        (p : ℕ)
        → element_of linked p ≡ (if p == length nodes then some element else element_of nodes p)
    element_of-linked p =
        let lt = get_elem?-lt nodes previous at in
        elim (Bool-cases (p == previous)) [
          | inl e ↦
              let same : p ≡ previous = ground arith in
              let old : (previous == length nodes) ≡ false = ground arith in
              rw (same, old) element_of-previous
          | inr e ↦
              let ne : previous ≢ p = ground arith in
              let kept =
                get_elem?-set_ne (nodes ++ some new ∷ []) previous p
                  (some (record x { next = some (length nodes) })) ne in
              elim (Bool-cases (p == length nodes)) [
                | inl last ↦
                    let same : p ≡ length nodes = ground arith in
                    rw last (ap (element_of linked) same ∙ element_of-new)
                | inr other ↦ rw other (
                    element_of-eq linked nodes p
                      (kept ∙ get_elem?-snoc_ne nodes (some new) p (ground arith)))
              ]
        ]
