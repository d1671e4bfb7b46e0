-- ===== src/Tests/Utilities.antt =====
-- cutil/ at concrete inputs.
use raiezau.Base.{
  zero, suc, leb, ◌-◌, ◌<◌, sym, ◌∙◌, get_elem?-of_lt, ℕ, ◌≡◌, refl, true, false, none, some, List,
  [], ◌∷◌, ◌==◌, arith, if◌then◌else◌, All,
}
use raiezau.Base.Bytes.{Bytes, codes}
use raiezau.Cutil.HashTable.Laws.{IsMap}
use raiezau.Cutil.LinkedList.{LinkedList, walk, list_get_node, list_insert}
use raiezau.Cutil.LinkedList.Linked.{element_of}
use raiezau.Cutil.LinkedList.Insert.{list_insert_lem}
use raiezau.Cutil.LinkedList.Simple.{IsSimple}
use raiezau.Cutil.LinkedList.Cursor.{IsPlaced, moved, list_get_node_lem}
use raiezau.Cutil.Stack.{Stack, minus_one}
use raiezau.Cutil.Stack.Refines.{Holds}
use raiezau.Cutil.Text.{string_split, string_split2, character_is_in_string}
use raiezau.Cutil.Text.Tokens.{IsToken, keep, concat, join, string_split_sound, string_split-join}
use raiezau.Cutil.Text.Pieces.{Absent, glue, glue-string_split2}
use raiezau.Cutil.Uthash.{assoc}

tokens : string_split (codes "  a bc ") (codes " ") ≡ codes "a" ∷ codes "bc" ∷ []
unfolding string_split
tokens = refl

pieces : string_split2 (codes "a==b") (codes "=") ≡ codes "a" ∷ [] ∷ codes "b" ∷ []
unfolding string_split2
pieces = refl

string_split_sound_example :
    All (IsToken (codes " ")) (string_split (codes " a b") (codes " "))
    × (concat (codes " ") (string_split (codes " a b") (codes " "))
        ≡ keep (codes " ") (codes " a b"))
string_split_sound_example = string_split_sound (codes " ") (codes " a b")

string_split-join_example :
    string_split (join (codes " ") b' ' (codes "a" ∷ codes "b" ∷ [])) (codes " ")
    ≡ codes "a" ∷ codes "b" ∷ []
unfolding character_is_in_string
string_split-join_example =
    string_split-join (codes " ") b' ' (codes "a" ∷ codes "b" ∷ []) refl
      ((cc, (refl, tt)), ((cc, (refl, tt)), tt))

glue-string_split2_example :
    All (Absent (codes "=")) (string_split2 (codes "a=b") (codes "="))
    × (glue (codes "=") (string_split2 (codes "a=b") (codes "=")) ≡ codes "a=b")
glue-string_split2_example = glue-string_split2 (codes "=") (cc) (codes "a=b")

abbrev one_key : List (Bytes × ℕ)
one_key = (codes "a", 1) ∷ []

one_key-IsMap : IsMap (assoc ℕ) one_key
one_key-IsMap = (tt, tt)

-- A stack of two elements with one in use, and a full one.
abbrev half_full : Stack
half_full = record { head = 0; buffer_size = 2; buf = 7 ∷ 0 ∷ [] }

half_full-Holds : Holds half_full (7 ∷ [])
half_full-Holds = record {
  head = omega arith;
  bound = omega arith;
  room = refl;
  small = omega arith;
  stored = (refl, tt);
}

abbrev two : List ℕ
two = 8 ∷ 7 ∷ []

abbrev full : Stack
full = record { head = 1; buffer_size = 2; buf = 7 ∷ 8 ∷ [] }

full-Holds : Holds full (8 ∷ 7 ∷ [])
full-Holds = record {
  head = omega arith;
  bound = omega arith;
  room = refl;
  small = omega arith;
  stored = (refl, (refl, tt));
}

abbrev new_stack : Stack
new_stack = record { head = minus_one; buffer_size = 2; buf = 0 ∷ 0 ∷ [] }

-- A list of 7 and 8 with its cursor at 8.
abbrev seven_eight : LinkedList
seven_eight = record {
  nodes =
      some (record { element = 0; next = some 2; is_sentinel = true })
      ∷ some (record { element = 0; next = none; is_sentinel = true })
      ∷ some (record { element = 7; next = some 3; is_sentinel = false })
      ∷ some (record { element = 8; next = some 1; is_sentinel = false })
      ∷ [];
  front_sentinel = 0;
  cursor = 3;
  size = 2;
  curpos = 2;
  frees = false;
  released = [];
}

list_get_node_lem_example : list_get_node seven_eight 1 ≡ moved seven_eight 1
unfolding walk
list_get_node_lem_example = list_get_node_lem seven_eight 1 refl

position_of : ℕ → ℕ
position_of p = if p == 0 then 0 else if p == 2 then 1 else if p == 3 then 2 else 3

walk-position_of : (i p : ℕ) → walk seven_eight.nodes i 0 ≡ some p → (i ≡ position_of p) × (p < 4)
unfolding walk position_of
walk-position_of zero p h = ground arith
walk-position_of (suc zero) p h = ground arith
walk-position_of (suc (suc zero)) p h = ground arith
walk-position_of (suc (suc (suc zero))) p h = ground arith
walk-position_of (suc (suc (suc (suc i)))) p h = ground arith

seven_eight-IsSimple : IsSimple seven_eight
seven_eight-IsSimple = record {
  once = λ i j p a b. (walk-position_of i p a).0 ∙ sym (walk-position_of j p b).0;
  placed = λ i p a. get_elem?-of_lt seven_eight.nodes p (walk-position_of i p a).1;
}

list_insert_lem_example :
    (l' : LinkedList) × (list_insert seven_eight 2 9 ≡ some l')
    × IsPlaced l'
    × IsSimple l'
    × ((i : ℕ)
        → walk l'.nodes i l'.front_sentinel ≡ (
            if leb i 1
            then walk seven_eight.nodes i 0
            else if i == 2
            then some 4
            else walk seven_eight.nodes (i - 1) 0))
    × ((p : ℕ)
        → element_of l'.nodes p ≡ (if p == 4 then some 9 else element_of seven_eight.nodes p))
unfolding walk
list_insert_lem_example =
    list_insert_lem seven_eight 1 2 9 3 (record { element = 7; next = some 3; is_sentinel = false })
      refl seven_eight-IsSimple (omega arith) refl refl refl
