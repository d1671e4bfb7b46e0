-- ===== src/Tests/Lists.antt =====
-- The lists of tracker_cpp/ at concrete inputs.
use raiezau.Base.{◌≡◌, refl, true, false, none, some, List, [], ◌∷◌, arith}
use raiezau.TrackerCpp.Lists.{NodeList, remove_value}
use raiezau.TrackerCpp.Lists.Cells.{Cell, IsList}
use raiezau.TrackerCpp.Lists.Removing.{kept, remove_value_lem}
use raiezau.Cutil.LinkedList.{node_get_next, load_node}

-- A list of 7, 7 and 8 with its cursor at 8.
abbrev twice_seven : NodeList
twice_seven = record {
  nodes =
      some (record { element = 0; next = some 2; is_sentinel = true })
      ∷ some (record { element = 0; next = none; is_sentinel = true })
      ∷ some (record { element = 7; next = some 3; is_sentinel = false })
      ∷ some (record { element = 7; next = some 4; is_sentinel = false })
      ∷ some (record { element = 8; next = some 1; is_sentinel = false })
      ∷ [];
  front_sentinel = 0;
  cursor = 4;
  size = 3;
  curpos = 3;
}

abbrev cells : List Cell
cells = (2, 7) ∷ (3, 7) ∷ (4, 8) ∷ []

twice_seven-IsList : IsList twice_seven cells 1
unfolding node_get_next load_node
twice_seven-IsList = record {
  links = (
    refl,
    (_, (refl, refl), refl),
    (refl, (_, (refl, refl), refl), (refl, (_, (refl, refl), refl), (refl, (_, (refl, refl))))),
  );
  distinct = (
    omega arith,
    omega arith,
    (omega arith, (omega arith, tt)),
    (omega arith, omega arith, (omega arith, tt), (omega arith, omega arith, tt, omega arith)),
  );
  count = refl;
}

remove_value_lem_example :
    (l' : NodeList) × (remove_value twice_seven 7 ≡ some l')
    × IsList l' (kept 7 false cells) 1
    × (l'.cursor ≡ l'.front_sentinel)
    × (l'.curpos ≡ 0)
remove_value_lem_example = remove_value_lem twice_seven 7 cells 1 twice_seven-IsList (omega arith)

second_stays : kept 7 false cells ≡ (3, 7) ∷ (4, 8) ∷ []
unfolding kept
second_stays = refl
