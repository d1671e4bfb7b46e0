-- ===== src/TrackerCpp/Lists/Removing.antt =====
-- `removeValue` of List.cpp.
use mathlib.Core.Path.{subst}
use raiezau.Base.{
  ℕ, zero, suc, ◌^◌, ◌≡◌, ◌≤◌, ◌<◌, refl, sym, ◌∙◌, Bool, true, false, Option, some, List, [], ◌∷◌,
  ◌==◌, arith, if◌then◌else◌, length, Bool-cases, inl, inr,
}
use raiezau.Cutil.LinkedList.{load_node}
use raiezau.TrackerCpp.Lists.{
  NodeList, unlink_behind, remove_if, move_on, remove_value_rounds, remove_value,
}
use raiezau.TrackerCpp.Lists.Cells.{Cell, IsList, Links, Absent, Distinct, Distinct-skip}
use raiezau.TrackerCpp.Lists.Rounds.{Passes, stops, extends, unlinks}

-- What a removal of a value leaves: all cells that do not have it, and each cell whose predecessor was
-- removed.
unfoldable pub kept : ℕ → (skips : Bool) → List Cell → List Cell
kept value skips [] = []
kept value true (c ∷ cells) = c ∷ kept value false cells
kept value false ((a, v) ∷ cells) =
    if v == value then kept value true cells else (a, v) ∷ kept value false cells

-- the loop from its start, or from the end of a round
unfoldable run : (ends : Bool) → ℕ → ℕ → ℕ → NodeList → Option NodeList
run true fuel value n l = move_on (remove_value_rounds fuel value) n l
run false fuel value n l = remove_value_rounds (suc fuel) value n l

remove_if_last :
    (value n last : ℕ) (l : NodeList) → Links l.nodes n [] last → remove_if value n l ≡ some l
unfolding remove_if load_node
remove_if_last value n last l (to, (x, (at, s))) = rw (remove_if, to, load_node, at, s) refl

remove_if_lem :
    (value n a v last : ℕ) (cells : List Cell) (l : NodeList)
    → Links l.nodes n ((a, v) ∷ cells) last
    → remove_if value n l ≡ (if v == value then unlink_behind n l else some l)
unfolding remove_if load_node
remove_if_lem value n a v last cells l (to, (x, (at, s), e), links) =
    rw (remove_if, to, load_node, at, s, e) refl

run-Passes :
    (value : ℕ) (ends : Bool) (cells : List Cell) (fuel : ℕ) (l : NodeList) (n last : ℕ)
    → length cells ≤ fuel
    → Links l.nodes n cells last
    → Distinct n cells last
    → Passes l n cells (kept value ends cells) last (run ends fuel value n l)
unfolding run kept remove_value_rounds
run-Passes value true [] fuel l n last le links d =
    stops (remove_value_rounds fuel value) l n last links
run-Passes value false [] fuel l n last le links d =
    subst (Passes l n [] [] last)
      (sym (rw (remove_value_rounds, remove_if_last value n last l links) refl))
      (stops (remove_value_rounds fuel value) l n last links)
run-Passes value ends ((a, v) ∷ cells) zero l n last le links d = absurd (omega arith)
run-Passes value true ((a, v) ∷ cells) (suc fuel) l n last le links d =
    let (_, _, links') = links in
    let (_, _, _, d') = d in
    extends (remove_value_rounds (suc fuel) value) l n a v cells (kept value false cells) last links
      d (run-Passes value false cells fuel l a last (omega arith) links' d')
run-Passes value false ((a, v) ∷ cells) (suc fuel) l n last le links d =
    let (_, _, links') = links in
    let (_, _, _, d') = d in
    let step = remove_if_lem value n a v last cells l links in
    elim (Bool-cases (v == value)) [
      | inl e ↦
          let taken : remove_if value n l ≡ unlink_behind n l = step ∙ rw e refl in
          rw (kept, e)
            (subst (Passes l n ((a, v) ∷ cells) (kept value true cells) last)
              (sym (rw (remove_value_rounds, taken) refl))
              (unlinks (move_on (remove_value_rounds (suc fuel) value) n) l n a v cells
                (kept value true cells) last links d
                (λ l1 links1.
                  run-Passes value true cells (suc fuel) l1 n last (omega arith) links1
                    (Distinct-skip n a v cells last d))))
      | inr e ↦
          let left : remove_if value n l ≡ some l = step ∙ rw e refl in
          rw (kept, e)
            (subst (Passes l n ((a, v) ∷ cells) ((a, v) ∷ kept value false cells) last)
              (sym (rw (remove_value_rounds, left) refl))
              (extends (remove_value_rounds (suc fuel) value) l n a v cells (kept value false cells)
                last links d (run-Passes value false cells fuel l a last (omega arith) links' d')))
    ]

kept-Absent :
    (p value : ℕ) (skips : Bool) (cells : List Cell)
    → Absent p cells
    → Absent p (kept value skips cells)
unfolding kept
kept-Absent p value skips [] h = tt
kept-Absent p value true (c ∷ cells) (ne, h) = (ne, kept-Absent p value false cells h)
kept-Absent p value false ((a, v) ∷ cells) (ne, h) = elim (Bool-cases (v == value)) [
  | inl e ↦ rw (kept, e) (kept-Absent p value true cells h)
  | inr e ↦ rw (kept, e) (ne, kept-Absent p value false cells h)
]

kept-Distinct :
    (p value : ℕ) (skips : Bool) (cells : List Cell) (last : ℕ)
    → Distinct p cells last
    → Distinct p (kept value skips cells) last
unfolding kept
kept-Distinct p value skips [] last d = d
kept-Distinct p value true ((a, v) ∷ cells) last (end, ne, absent, d) =
    (end, ne, kept-Absent p value false cells absent, kept-Distinct a value false cells last d)
kept-Distinct p value false ((a, v) ∷ cells) last (end, ne, absent, d) =
    elim (Bool-cases (v == value)) [
      | inl e ↦
          rw (kept, e)
            (kept-Distinct p value true cells last
              (Distinct-skip p a v cells last (end, ne, absent, d)))
      | inr e ↦
          rw (kept, e)
            (
              end,
              ne,
              kept-Absent p value false cells absent,
              kept-Distinct a value false cells last d,
            )
    ]

-- `removeValue` on a list whose nodes, at different places, have the given cells, fewer than 2 ^ 64,
-- and whose size is their number, comes to an end without a use of a deleted node, wherever the
-- cursor is. It leaves the cells without the value and each cell whose predecessor it removes, so
-- that of two neighbours with the value the second stays. The list is again such a list of what is
-- left, with the cursor at the front.
pub remove_value_lem :
    (l : NodeList) (value : ℕ) (cells : List Cell) (last : ℕ)
    → IsList l cells last
    → length cells < 2 ^ 64
    → (l' : NodeList) × (remove_value l value ≡ some l')
      × IsList l' (kept value false cells) last
      × (l'.cursor ≡ l'.front_sentinel)
      × (l'.curpos ≡ 0)
unfolding remove_value run
remove_value_lem l value cells last is lt =
    let l0 : NodeList = record l { curpos = 0; cursor = l.front_sentinel } in
    let le : length cells ≤ l.size = omega (arith, is.count) in
    let r = run-Passes value false cells l.size l0 l.front_sentinel last le is.links is.distinct in
    let count = r.size 0 (omega (arith, is.count)) (omega arith) in
    (
      r.out,
      r.eq,
      record {
        links =
            subst (λ p. Links r.out.nodes p (kept value false cells) last) (sym r.front) r.links;
        distinct =
            subst (λ p. Distinct p (kept value false cells) last) (sym r.front)
              (kept-Distinct l.front_sentinel value false cells last is.distinct);
        count = omega (arith, count);
      },
      r.cursor ∙ sym r.front,
      r.curpos,
    )
