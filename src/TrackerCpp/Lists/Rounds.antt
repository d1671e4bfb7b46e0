-- ===== src/TrackerCpp/Lists/Rounds.antt =====
-- The rounds of `removeValue` of List.cpp.
use raiezau.Base.{
  ℕ, suc, ◌+◌, ◌-◌, ◌%◌, ◌^◌, ◌≡◌, ◌≢◌, ◌<◌, refl, sym, ap, ◌∙◌, Option, none, some, List, [], ◌∷◌,
  arith, length, get_elem?, set, get_elem?-set_self, get_elem?-set_ne, get_elem?-lt,
}
use raiezau.Cutil.LinkedList.{Node, load_node, node_get_next, node_set_next}
use raiezau.TrackerCpp.Lists.{NodeList, unlink_behind, move_on}
use raiezau.TrackerCpp.Lists.Cells.{
  Cell, Links, Absent, Distinct, Same, next-Same, Links-moved, Links-next, Distinct-last,
  Distinct-Absent, All-Same, next_node, same_node,
}

-- What a run that starts at the node `n` makes of a list with these cells behind `n`.
pub record Passes (l : NodeList) (n : ℕ) (cells rest : List Cell) (last : ℕ) (o : Option NodeList)
    : Type 0 where
  pub out : NodeList
  pub eq : o ≡ some out
  pub links : Links out.nodes n rest last
  pub others : (p : ℕ) → n ≢ p → Absent p cells → Same l.nodes out.nodes p
  pub here :
      (x : Node)
      → get_elem? l.nodes n ≡ some (some x)
      → (y : Node) × (get_elem? out.nodes n ≡ some (some y))
        × (y.element ≡ x.element)
        × (y.is_sentinel ≡ x.is_sentinel)
  pub front : out.front_sentinel ≡ l.front_sentinel
  pub cursor : out.cursor ≡ l.cursor
  pub curpos : out.curpos ≡ l.curpos
  pub size :
      (k : ℕ) → l.size ≡ k + length cells → k + length cells < 2 ^ 64 → out.size ≡ k + length rest

-- a round that leaves the list
pub stops :
    (later : ℕ → NodeList → Option NodeList) (l : NodeList) (n last : ℕ)
    → Links l.nodes n [] last
    → Passes l n [] [] last (move_on later n l)
unfolding move_on load_node
stops later l n last (to, (x, (at, s))) = record {
  out = l;
  eq = rw (move_on, to, load_node, at, s) refl;
  links = (to, (x, (at, s)));
  others = λ p ne absent. refl;
  here = λ y e. (y, e, refl, refl);
  front = refl;
  cursor = refl;
  curpos = refl;
  size = λ k e lt. e;
}

-- a round that goes on at the next node
pub extends :
    (later : ℕ → NodeList → Option NodeList) (l : NodeList) (n a v : ℕ) (cells rest : List Cell)
    (last : ℕ)
    → Links l.nodes n ((a, v) ∷ cells) last
    → Distinct n ((a, v) ∷ cells) last
    → Passes l a cells rest last (later a l)
    → Passes l n ((a, v) ∷ cells) ((a, v) ∷ rest) last (move_on later n l)
unfolding move_on load_node
extends later l n a v cells rest last (to, (x, (at, s), e), links) (_, ne, absent, _) r =
    let same : Same l.nodes r.out.nodes n = r.others n (λ e. ne (sym e)) absent in
    let (y, at', e', s') = r.here x at in
    record {
      out = r.out;
      eq = rw (move_on, to, load_node, at, s) r.eq;
      links = (next-Same l.nodes r.out.nodes n same ∙ to, (y, (at', s' ∙ s), e' ∙ e), r.links);
      others = λ p ne' (other, absent'). r.others p other absent';
      here = λ z f. (z, same ∙ f, refl, refl);
      front = r.front;
      cursor = r.cursor;
      curpos = r.curpos;
      size = λ k f lt.
          let first : l.size ≡ suc k + length cells = omega arith in
          let s = r.size (suc k) first (omega arith) in omega arith;
    }

-- the nodes after the node at `a`, which is behind the one at `n`, is unlinked
abbrev unlinked : List (Option Node) → ℕ → ℕ → Node → List (Option Node)
unlinked nodes n a y = set (set nodes n (some y)) a none

unlink_behind_lem :
    (l : NodeList) (n a b : ℕ) (w : Node)
    → get_elem? l.nodes n ≡ some (some w)
    → w.next ≡ some a
    → node_get_next l.nodes a ≡ some b
    → unlink_behind n l
      ≡ some (record l {
        nodes = unlinked l.nodes n a (record w { next = some b });
        size = (l.size + 2 ^ 64 - 1) % 2 ^ 64;
      })
unfolding unlink_behind node_get_next node_set_next load_node
unlink_behind_lem l n a b w at next behind =
    let to : node_get_next l.nodes n ≡ some a = rw (node_get_next, load_node, at) next in
    rw (unlink_behind, to, behind, node_set_next, load_node, at) refl

module _ (nodes : List (Option Node)) (n a : ℕ) (w y : Node) (ne : n ≢ a)
    (at : get_elem? nodes n ≡ some (some w)) where
  unlinked-Same : (p : ℕ) → n ≢ p → a ≢ p → Same nodes (unlinked nodes n a y) p
  unlinked-Same p ne1 ne2 =
      get_elem?-set_ne (set nodes n (some y)) a p none ne2 ∙ get_elem?-set_ne nodes n p (some y) ne1

  unlinked-here : get_elem? (unlinked nodes n a y) n ≡ some (some y)
  unlinked-here =
      get_elem?-set_ne (set nodes n (some y)) a n none (λ e. ne (sym e))
      ∙ get_elem?-set_self nodes n (some y) (get_elem?-lt nodes n at)

-- The removal of the node behind `n`, and a run from then on.
pub unlinks :
    (o : NodeList → Option NodeList) (l : NodeList) (n a v : ℕ) (cells rest : List Cell) (last : ℕ)
    → Links l.nodes n ((a, v) ∷ cells) last
    → Distinct n ((a, v) ∷ cells) last
    → ((l1 : NodeList) → Links l1.nodes n cells last → Passes l1 n cells rest last (o l1))
    → Passes l n
        ((a, v) ∷ cells)
        rest
        last
        (elim (unlink_behind n l) [ none ↦ none | some l1 ↦ o l1 ])
unlinks o l n a v cells rest last (to, node, links) (end, ne, absent, d) run =
    let (w, at, next) = next_node l.nodes n a to in
    let (b, behind) = Links-next l.nodes a cells last links in
    let y : Node = record w { next = some b } in
    let l1 : NodeList = record l {
      nodes = unlinked l.nodes n a y;
      size = (l.size + 2 ^ 64 - 1) % 2 ^ 64;
    } in
    let place = unlinked-here l.nodes n a w y ne at in
    let same = unlinked-Same l.nodes n a w y ne at in
    let absent' = Distinct-Absent a cells last d in
    let to' : node_get_next l1.nodes n ≡ some b =
      unfold node_get_next in unfold load_node in rw (node_get_next, load_node, place) refl in
    let links1 : Links l1.nodes n cells last =
      Links-moved l.nodes l1.nodes a n cells last (to' ∙ sym behind)
        (All-Same l.nodes l1.nodes n a cells same absent absent')
        (same last end (Distinct-last a cells last d)) links in
    let r = run l1 links1 in
    record {
      out = r.out;
      eq = rw (unlink_behind_lem l n a b w at next behind) r.eq;
      links = r.links;
      others = λ p ne' (other, others). r.others p ne' others ∙ same p ne' (λ e. other e);
      here = λ x e.
          let (z, e1, e2, e3) = r.here y place in
          let x_w : w ≡ x = same_node l.nodes n at e in
          (z, e1, e2 ∙ ap (λ u. u.element) x_w, e3 ∙ ap (λ u. u.is_sentinel) x_w);
      front = r.front;
      cursor = r.cursor;
      curpos = r.curpos;
      size = λ k f lt. r.size k (omega arith) (omega arith);
    }
