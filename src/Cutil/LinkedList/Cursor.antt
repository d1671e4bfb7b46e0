-- ===== src/Cutil/LinkedList/Cursor.antt =====
-- `list_get_node` of list.c: the cursor saves steps and changes no result.
use raiezau.Base.{
  ℕ, zero, suc, ◌+◌, ◌-◌, ◌≡◌, refl, sym, ap, ◌∙◌, Option, none, some, List, arith, leb, Bool-cases,
  Option-cases, inl, inr, if◌then◌else◌,
}
use raiezau.Cutil.LinkedList.{Node, LinkedList, node_get_next, walk, list_get_node}

-- The cursor stands where a walk of `curpos` steps from the front sentinel ends.
abbrev pub IsPlaced : LinkedList → Type 0
IsPlaced l = walk l.nodes l.curpos l.front_sentinel ≡ some l.cursor

module _ (nodes : List (Option Node)) where
  pub walk-suc :
      (k p : ℕ) {r : ℕ} → node_get_next nodes p ≡ some r → walk nodes (suc k) p ≡ walk nodes k r
  walk-suc k p e = unfold walk in rw (walk, e) refl

  pub walk_stuck : (k p : ℕ) → node_get_next nodes p ≡ none → walk nodes (suc k) p ≡ none
  walk_stuck k p e = unfold walk in rw (walk, e) refl

  pub walk_add :
      (a b p : ℕ) {q : ℕ} → walk nodes a p ≡ some q → walk nodes (a + b) p ≡ walk nodes b q
  walk_add zero b p {q} e =
      let same : some p ≡ some q = unfold walk in e in
      let at : p ≡ q = cc in let count : 0 + b ≡ b = omega arith in rw (count, at) refl
  walk_add (suc a) b p {q} e = elim (Option-cases (node_get_next nodes p)) [
    | inl x ↦ let no : none ≡ some q = sym (walk_stuck a p x) ∙ e in ground arith
    | inr (r, x) ↦
        let count : suc a + b ≡ suc (a + b) = omega arith in
        ap (λ k. walk nodes k p) count
        ∙ walk-suc (a + b) p x
        ∙ walk_add a b r (sym (walk-suc a p x) ∙ e)
  ]

-- The node that `list_get_node` finds, counted from the front sentinel without a cursor.
unfoldable pub moved : LinkedList → ℕ → Option (ℕ × LinkedList)
moved l n = elim (walk l.nodes n l.front_sentinel) [
  | none ↦ none
  | some p ↦ some (p, record l { cursor = p; curpos = n })
]

walk_cursor :
    (l : LinkedList) (n : ℕ)
    → IsPlaced l
    → (if leb l.curpos n
        then walk l.nodes (n - l.curpos) l.cursor
        else walk l.nodes n l.front_sentinel)
      ≡ walk l.nodes n l.front_sentinel
walk_cursor l n h = elim (Bool-cases (leb l.curpos n)) [
  | inl e ↦
      let sum : l.curpos + (n - l.curpos) ≡ n = ground arith in
      rw e (
        sym (walk_add l.nodes l.curpos (n - l.curpos) l.front_sentinel h)
        ∙ ap (λ k. walk l.nodes k l.front_sentinel) sum)
  | inr e ↦ rw e refl
]

-- With a cursor in its place `list_get_node` finds the node that a walk of `n` steps from the front
-- sentinel ends at, if that walk does not leave the list, and puts the cursor there.
pub list_get_node_lem : (l : LinkedList) (n : ℕ) → IsPlaced l → list_get_node l n ≡ moved l n
unfolding list_get_node moved
list_get_node_lem l n h = rw (list_get_node, walk_cursor l n h) refl
