-- ===== src/Cutil/LinkedList/Insert.antt =====
-- `list_insert` of list.c.
use raiezau.Base.{
  ℕ, suc, ◌+◌, ◌-◌, ◌%◌, ◌^◌, ◌≡◌, ◌≢◌, ◌≤◌, ◌<◌, refl, sym, ap, ◌∙◌, Option, none, some, List, [],
  ◌∷◌, arith, length, get_elem?, get_elem?-append_left, ◌==◌, leb, if◌then◌else◌, Bool-cases, inl,
  inr,
}
use raiezau.Cutil.LinkedList.{
  Node, LinkedList, load_node, node_get_next, node_set_next, walk, link_behind, list_insert,
  list_get_node,
}
use raiezau.Cutil.LinkedList.Cursor.{IsPlaced, moved, list_get_node_lem, walk-suc, walk_add}
use raiezau.Cutil.LinkedList.Simple.{IsSimple, inserted-IsSimple}
use raiezau.Cutil.LinkedList.Linked.{
  new, linked, IsOther, walk-other, next-previous, next-new, element_of, element_of-linked,
  length-linked,
}

module _ (l : LinkedList) (m previous element next : ℕ) (x : Node) where
  abbrev after : List (Option Node)
  after = linked l.nodes previous element next x

  module _ (simple : IsSimple l) (here : walk l.nodes m l.front_sentinel ≡ some previous)
      (at : get_elem? l.nodes previous ≡ some (some x)) (to : x.next ≡ some next) where
    others :
        (i p : ℕ)
        → i ≢ m
        → walk l.nodes i l.front_sentinel ≡ some p
        → IsOther l.nodes previous element next x p
    others i p ne e =
        (λ same. ne (simple.once i m previous (rw (← same) e) here), simple.placed i p e)

    before : (i : ℕ) → i ≤ m → walk after i l.front_sentinel ≡ walk l.nodes i l.front_sentinel
    before i le =
        walk-other l.nodes previous element next x i l.front_sentinel
          (λ j q lt e. others j q (omega arith) e)

    next-here : node_get_next l.nodes previous ≡ some next
    unfolding node_get_next load_node
    next-here = rw (node_get_next, load_node, at) to

    walk-next : (j : ℕ) → walk l.nodes (m + suc j) l.front_sentinel ≡ walk l.nodes j next
    walk-next j =
        walk_add l.nodes m (suc j) l.front_sentinel here ∙ walk-suc l.nodes j previous next-here

    here-after : walk after m l.front_sentinel ≡ some previous
    here-after = before m (omega arith) ∙ here

    at-new : walk after (m + 1) l.front_sentinel ≡ some (length l.nodes)
    at-new =
        walk_add after m 1 l.front_sentinel here-after
        ∙ walk-suc after 0 previous (next-previous l.nodes previous element next x at)
        ∙ unfold walk in refl

    behind :
        (j : ℕ)
        → walk after (m + suc (suc j)) l.front_sentinel ≡ walk l.nodes (m + suc j) l.front_sentinel
    behind j =
        walk_add after m (suc (suc j)) l.front_sentinel here-after
        ∙ walk-suc after (suc j) previous (next-previous l.nodes previous element next x at)
        ∙ walk-suc after j (length l.nodes) (next-new l.nodes previous element next x at)
        ∙ walk-other l.nodes previous element next x j next
            (λ i q lt e. others (m + suc i) q (omega arith) (walk-next i ∙ e))
        ∙ sym (walk-next j)

    link_behind-after :
        link_behind previous element l
        ≡ some (record l { nodes = after; size = (l.size + 1) % 2 ^ 64 })
    unfolding link_behind node_set_next load_node
    link_behind-after =
        let new_at =
          get_elem?-append_left l.nodes (some (new l.nodes previous element next x) ∷ []) previous
            at in
        rw (link_behind, next-here, node_set_next, load_node, new_at) refl

    position :
        (i : ℕ)
        → walk after i l.front_sentinel ≡ (
            if leb i m
            then walk l.nodes i l.front_sentinel
            else if i == m + 1
            then some (length l.nodes)
            else walk l.nodes (i - 1) l.front_sentinel)
    position i = elim (Bool-cases (leb i m)) [
      | inl e ↦ rw e (before i (ground arith))
      | inr e ↦ elim (Bool-cases (i == m + 1)) [
        | inl f ↦ let same : i ≡ m + 1 = ground arith in rw (e, f, same) at-new
        | inr f ↦
            let j : i ≡ m + suc (suc (i - (m + 2))) = ground arith in
            let k : i - 1 ≡ m + suc (i - (m + 2)) = ground arith in
            rw (e, f)
              (ap (λ n. walk after n l.front_sentinel) j
                ∙ behind (i - (m + 2))
                ∙ ap (λ n. walk l.nodes n l.front_sentinel) (sym k))
      ]
    ]

insert_behind :
    (l : LinkedList) (n previous element : ℕ) {l' : LinkedList}
    → list_get_node l ((n + 2 ^ 32 - 1) % 2 ^ 32) ≡ some (previous, l')
    → list_insert l n element ≡ link_behind previous element l'
insert_behind l n previous element e =
    unfold list_insert in
    ap
      (λ (found : Option (ℕ × LinkedList)). elim found [
        | none ↦ none
        | some (previous, l) ↦ link_behind previous element l
      ])
      e

-- `list_insert(list, n, element)` for 1 ≤ n < 2 ^ 31 in a list whose cursor is in its place, that
-- meets no node twice, and that has a node `previous` at position n - 1 with another one behind it.
-- The nodes at the positions before n stay, a new node with the element stands at n, and every node
-- from n on stands one position further; all other nodes keep their elements, and the cursor is
-- again in its place, and the list again meets no node twice.
pub list_insert_lem :
    (l : LinkedList) (m previous element next : ℕ) (x : Node)
    → IsPlaced l
    → IsSimple l
    → m + 1 < 2 ^ 31
    → walk l.nodes m l.front_sentinel ≡ some previous
    → get_elem? l.nodes previous ≡ some (some x)
    → x.next ≡ some next
    → (l' : LinkedList) × (list_insert l (m + 1) element ≡ some l')
      × IsPlaced l'
      × IsSimple l'
      × ((i : ℕ)
          → walk l'.nodes i l'.front_sentinel ≡ (
              if leb i m
              then walk l.nodes i l.front_sentinel
              else if i == m + 1
              then some (length l.nodes)
              else walk l.nodes (i - 1) l.front_sentinel))
      × ((p : ℕ)
          → element_of l'.nodes p
            ≡ (if p == length l.nodes then some element else element_of l.nodes p))
list_insert_lem l m previous element next x placed simple lt here at to =
    let l1 : LinkedList = record l { cursor = previous; curpos = m } in
    let simple1 : IsSimple l1 = record { once = simple.once; placed = simple.placed } in
    let index : (m + 1 + 2 ^ 32 - 1) % 2 ^ 32 ≡ m = omega arith in
    let found : list_get_node l m ≡ some (previous, l1) =
      list_get_node_lem l m placed ∙ unfold moved in rw (moved, here) refl in
    (
      record l1 { nodes = after l m previous element next x; size = (l.size + 1) % 2 ^ 64 },
      insert_behind l (m + 1) previous element (rw index found)
          ∙ link_behind-after l1 m previous element next x simple1 here at to,
      here-after l1 m previous element next x simple1 here at to,
      inserted-IsSimple l1
          (record l1 { nodes = after l m previous element next x; size = (l.size + 1) % 2 ^ 64 }) m
          simple1 (length-linked l.nodes previous element next x)
          (position l1 m previous element next x simple1 here at to),
      position l1 m previous element next x simple1 here at to,
      element_of-linked l.nodes previous element next x at,
    )
