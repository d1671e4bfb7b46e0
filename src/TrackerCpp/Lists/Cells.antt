-- ===== src/TrackerCpp/Lists/Cells.antt =====
-- The nodes of a list of List.cpp, from a node up to the sentinel at the end.
use raiezau.Base.{
  ℕ, ◌≡◌, ◌≢◌, refl, sym, ap, ◌∙◌, Bool, true, false, Option, none, some, List, [], ◌∷◌, arith,
  length, get_elem?, All, Option-cases, inl, inr,
}
use raiezau.Cutil.LinkedList.{Node, load_node, node_get_next}
use raiezau.TrackerCpp.Lists.{NodeList}

-- A node's address and its element.
abbrev pub Cell : Type 0
Cell = ℕ × ℕ

-- The node at `p` has this element and is (or is not) a sentinel.
abbrev pub Stores : List (Option Node) → ℕ → Bool → Node → Type 0
Stores nodes p sentinel x = (get_elem? nodes p ≡ some (some x)) × (x.is_sentinel ≡ sentinel)

-- The nodes behind `p` are those of the cells, and the sentinel `last` behind them.
abbrev pub Links : List (Option Node) → ℕ → List Cell → ℕ → Type 0
Links nodes p [] last =
    (node_get_next nodes p ≡ some last) × ((x : Node) × Stores nodes last true x)
Links nodes p ((a, v) ∷ cells) last =
    (node_get_next nodes p ≡ some a)
    × ((x : Node) × Stores nodes a false x × (x.element ≡ v))
    × Links nodes a cells last

-- No cell is at `p`.
abbrev pub Absent : ℕ → List Cell → Type 0
Absent p = All (λ c. c.0 ≢ p)

-- The places are all different.
abbrev pub Distinct : ℕ → List Cell → ℕ → Type 0
Distinct p [] last = p ≢ last
Distinct p ((a, v) ∷ cells) last = (p ≢ last) × (p ≢ a) × Absent p cells × Distinct a cells last

-- A list of these cells, its cursor aside.
pub record IsList (l : NodeList) (cells : List Cell) (last : ℕ) : Type 0 where
  pub links : Links l.nodes l.front_sentinel cells last
  pub distinct : Distinct l.front_sentinel cells last
  pub count : l.size ≡ length cells

-- Places that a change leaves alone.
abbrev pub Same : List (Option Node) → List (Option Node) → ℕ → Type 0
Same nodes nodes' p = get_elem? nodes' p ≡ get_elem? nodes p

pub next-Same :
    (nodes nodes' : List (Option Node)) (p : ℕ)
    → Same nodes nodes' p
    → node_get_next nodes' p ≡ node_get_next nodes p
unfolding node_get_next load_node
next-Same nodes nodes' p e = rw (node_get_next, load_node, e) refl

-- The nodes behind `a` in one list are those behind `p` in another one that has left them alone.
pub Links-moved :
    (nodes nodes' : List (Option Node)) (a p : ℕ) (cells : List Cell) (last : ℕ)
    → node_get_next nodes' p ≡ node_get_next nodes a
    → All (λ c. Same nodes nodes' c.0) cells
    → Same nodes nodes' last
    → Links nodes a cells last
    → Links nodes' p cells last
Links-moved nodes nodes' a p [] last here others end (to, (x, (at, s))) =
    (here ∙ to, (x, (end ∙ at, s)))
Links-moved nodes nodes' a p ((b, v) ∷ cells) last here (other, others) end
      (to, (x, (at, s), e), links) =
    (
      here ∙ to,
      (x, (other ∙ at, s), e),
      Links-moved nodes nodes' b b cells last (next-Same nodes nodes' b other) others end links,
    )

pub Links-next :
    (nodes : List (Option Node)) (p : ℕ) (cells : List Cell) (last : ℕ)
    → Links nodes p cells last
    → (q : ℕ) × (node_get_next nodes p ≡ some q)
Links-next nodes p [] last (to, _) = (last, to)
Links-next nodes p ((a, v) ∷ cells) last (to, _, _) = (a, to)

pub Distinct-last : (p : ℕ) (cells : List Cell) (last : ℕ) → Distinct p cells last → p ≢ last
Distinct-last p [] last d = d
Distinct-last p ((a, v) ∷ cells) last (ne, _, _, _) = ne

pub Distinct-Absent :
    (p : ℕ) (cells : List Cell) (last : ℕ) → Distinct p cells last → Absent p cells
Distinct-Absent p [] last d = tt
Distinct-Absent p ((a, v) ∷ cells) last (_, ne, absent, _) = ((λ e. ne (sym e)), absent)

-- The first place is taken out.
pub Distinct-skip :
    (p a v : ℕ) (cells : List Cell) (last : ℕ)
    → Distinct p ((a, v) ∷ cells) last
    → Distinct p cells last
Distinct-skip p a v [] last (ne, _, _, _) = ne
Distinct-skip p a v ((b, w) ∷ cells) last (ne, _, (other, absent), (_, _, _, d)) =
    (ne, (λ e. other (sym e)), absent, d)

pub All-Same :
    (nodes nodes' : List (Option Node)) (p q : ℕ) (cells : List Cell)
    → ((r : ℕ) → p ≢ r → q ≢ r → Same nodes nodes' r)
    → Absent p cells
    → Absent q cells
    → All (λ c. Same nodes nodes' c.0) cells
All-Same nodes nodes' p q [] h a b = tt
All-Same nodes nodes' p q ((r, v) ∷ cells) h (ne, a) (ne', b) =
    (h r (λ e. ne (sym e)) (λ e. ne' (sym e)), All-Same nodes nodes' p q cells h a b)

pub next_node :
    (nodes : List (Option Node)) (p q : ℕ)
    → node_get_next nodes p ≡ some q
    → (x : Node) × (get_elem? nodes p ≡ some (some x)) × (x.next ≡ some q)
unfolding node_get_next load_node
next_node nodes p q h = elim (Option-cases (get_elem? nodes p)) [
  | inl e ↦ let no : none ≡ some q = rw (node_get_next, load_node, e) at h in ground arith
  | inr (none, e) ↦ let no : none ≡ some q = rw (node_get_next, load_node, e) at h in ground arith
  | inr (some x, e) ↦ (x, e, rw (node_get_next, load_node, e) at h)
]

node_in : Node → Option (Option Node) → Node
node_in x none = x
node_in x (some none) = x
node_in x (some (some y)) = y

-- A place has one node.
pub same_node :
    (nodes : List (Option Node)) (p : ℕ) {x y : Node}
    → get_elem? nodes p ≡ some (some x)
    → get_elem? nodes p ≡ some (some y)
    → x ≡ y
unfolding node_in
same_node nodes p {x} e e' = ap (node_in x) (sym e ∙ e')
