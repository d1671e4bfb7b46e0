-- ===== src/TrackerCpp/Lists.antt =====
-- tracker_cpp/common/containers/List.cpp: a linked list between two sentinels, with a cursor, on nodes
-- as those of cutil/list_node.h. A pointer to a node is its position in the list's nodes; a deleted
-- node leaves `none`. An operation that follows a pointer to no node is `none`. An element is a
-- pointer, and `NULL` is 0. The mutex makes each operation one step. Positions and sizes are below
-- 2 ^ 31, where the `int` of a loop holds them.
pub mod Cells
pub mod Rounds
pub mod Removing
use raiezau.Base.{
  ℕ, zero, suc, ◌+◌, ◌-◌, ◌*◌, ◌%◌, ◌^◌, true, false, not, ◌&&◌, Option, none, some, List, [], ◌∷◌,
  ◌++◌, ◌==◌, leb, if◌then◌else◌, length, set,
}
use raiezau.Base.Bytes.{Bytes}
use raiezau.Cutil.LinkedList.{Node, load_node, node_get_next, node_set_next, walk}
use raiezau.Cutil.Uthash.{Uthash}
use raiezau.TrackerCpp.HashTable
use raiezau.TrackerCpp.HashTable.{HashMap}

-- `List` and its nodes. `m_last` and `free_element` are never used.
pub record NodeList : Type 0 where
  pub nodes : List (Option Node)
  pub front_sentinel : ℕ
  pub cursor : ℕ
  pub size : ℕ
  pub curpos : ℕ

unfoldable pub get_node : NodeList → ℕ → Option (ℕ × NodeList)
unfolding walk
get_node l n =
    let node =
      if leb l.curpos n
      then walk l.nodes (n - l.curpos) l.cursor
      else walk l.nodes n l.front_sentinel in
    elim node [ none ↦ none | some p ↦ some (p, record l { cursor = p; curpos = n }) ]

-- `List::List`
abbrev pub new_list : NodeList
new_list = record {
  nodes =
      some (record { element = 0; next = some 1; is_sentinel = true })
      ∷ some (record { element = 0; next = none; is_sentinel = true })
      ∷ [];
  front_sentinel = 0;
  cursor = 0;
  size = 0;
  curpos = 0;
}

unfoldable pub get : NodeList → ℕ → Option (ℕ × NodeList)
unfolding get_node load_node
get l n = elim (get_node l n) [
  | none ↦ none
  | some (p, l) ↦ elim (load_node l.nodes p) [ none ↦ none | some x ↦ some (x.element, l) ]
]

-- a new node with the element, put behind the node `previous`
unfoldable pub put_behind : ℕ → ℕ → NodeList → Option NodeList
unfolding node_get_next node_set_next
put_behind previous element l = elim (node_get_next l.nodes previous) [
  | none ↦ none
  | some next ↦
      let tmp : Node = record { element = element; next = some next; is_sentinel = false } in
      elim (node_set_next (l.nodes ++ some tmp ∷ []) previous (length l.nodes)) [
        | none ↦ none
        | some nodes ↦ some (record l { nodes = nodes; size = (l.size + 1) % 2 ^ 64 })
      ]
]

unfoldable pub add : NodeList → ℕ → Option NodeList
unfolding put_behind
add l element = elim (put_behind l.front_sentinel element l) [
  | none ↦ none
  | some l ↦ some (if not (l.curpos == 0) then record l { curpos = (l.curpos + 1) % 2 ^ 32 } else l)
]

-- `n - 1` is unsigned
unfoldable pub insert : NodeList → ℕ → ℕ → Option NodeList
unfolding get_node put_behind
insert l n element = elim (get_node l ((n + 2 ^ 32 - 1) % 2 ^ 32)) [
  | none ↦ none
  | some (previous, l) ↦ put_behind previous element l
]

unfoldable pub append : NodeList → ℕ → Option NodeList
unfolding insert
append l element = insert l ((l.size + 1) % 2 ^ 32) element

-- a loop that gets the elements from position `i` on, one for each round, and does `f` with each
unfoldable pub visit {ℓ} :
    {S : Type ℓ} → (ℕ → S → Option S) → ℕ → ℕ → NodeList → S → Option (S × NodeList)
unfolding get
visit f zero i l s = some (s, l)
visit f (suc rounds) i l s = elim (get l i) [
  | none ↦ none
  | some (x, l) ↦ elim (f x s) [ none ↦ none | some s ↦ visit f rounds (suc i) l s ]
]

-- this list and `l2`, whose cursor moves; the two are not the same list
unfoldable pub append_list : NodeList → NodeList → Option (NodeList × NodeList)
unfolding visit append
append_list l l2 = visit (λ x l. append l x) l2.size 1 l2 l

-- the copy and the list
unfoldable pub copy : NodeList → Option (NodeList × NodeList)
unfolding append_list
copy l = append_list new_list l

-- the nodes from `node` up to the back sentinel; a round deletes one node, which is not read again
unfoldable pub delete_loop : ℕ → ℕ → NodeList → Option NodeList
unfolding load_node
delete_loop zero node l = none
delete_loop (suc fuel) node l = elim (load_node l.nodes node) [
  | none ↦ none
  | some x ↦ elim x.is_sentinel [
    | true ↦ some (record l { nodes = set (set l.nodes node none) l.front_sentinel none })
    | false ↦ elim x.next [
      | none ↦ none
      | some tmp ↦ delete_loop fuel tmp (record l { nodes = set l.nodes node none })
    ]
  ]
]

-- `List::~List`; the result is the memory that is left
unfoldable pub delete_list : NodeList → Option NodeList
unfolding delete_loop node_get_next
delete_list l = elim (node_get_next l.nodes l.front_sentinel) [
  | none ↦ none
  | some node ↦ delete_loop (length l.nodes) node l
]

-- the node behind `previous` is unlinked and deleted
unfoldable pub unlink_behind : ℕ → NodeList → Option NodeList
unfolding node_get_next node_set_next
unlink_behind previous l = elim (node_get_next l.nodes previous) [
  | none ↦ none
  | some tmp ↦ elim (node_get_next l.nodes tmp) [
    | none ↦ none
    | some behind ↦ elim (node_set_next l.nodes previous behind) [
      | none ↦ none
      | some nodes ↦
          some (record l { nodes = set nodes tmp none; size = (l.size + 2 ^ 64 - 1) % 2 ^ 64 })
    ]
  ]
]

unfoldable pub remove : NodeList → ℕ → Option NodeList
unfolding get_node unlink_behind
remove l n = elim (get_node l ((n + 2 ^ 32 - 1) % 2 ^ 32)) [
  | none ↦ none
  | some (previous, l) ↦ unlink_behind previous l
]

-- the test and removal in the loop of `removeValue`, at the node `n`
unfoldable pub remove_if : ℕ → ℕ → NodeList → Option NodeList
unfolding node_get_next load_node unlink_behind
remove_if value n l = elim (node_get_next l.nodes n) [
  | none ↦ none
  | some next ↦ elim (load_node l.nodes next) [
    | none ↦ none
    | some x ↦ if not x.is_sentinel && x.element == value then unlink_behind n l else some l
  ]
]

-- the end of a round at the node `n`; `later` is the rest of the loop
unfoldable pub move_on : (ℕ → NodeList → Option NodeList) → ℕ → NodeList → Option NodeList
unfolding node_get_next load_node
move_on later n l = elim (node_get_next l.nodes n) [
  | none ↦ none
  | some n ↦ elim (load_node l.nodes n) [
    | none ↦ none
    | some x ↦ elim x.is_sentinel [ true ↦ some l | false ↦ later n l ]
  ]
]

-- a round moves to a node further on: there is at most one round more than elements
unfoldable pub remove_value_rounds : ℕ → ℕ → ℕ → NodeList → Option NodeList
unfolding remove_if move_on
remove_value_rounds zero value n l = none
remove_value_rounds (suc fuel) value n l = elim (remove_if value n l) [
  | none ↦ none
  | some l ↦ move_on (remove_value_rounds fuel value) n l
]

unfoldable pub remove_value : NodeList → ℕ → Option NodeList
unfolding remove_value_rounds
remove_value l value =
    remove_value_rounds (suc l.size) value l.front_sentinel
      (record l { curpos = 0; cursor = l.front_sentinel })

-- the array is written front to back
unfoldable pub to_array : NodeList → Option (List ℕ × NodeList)
unfolding visit
to_array l = visit (λ x array. some (array ++ x ∷ [])) l.size 0 l []

-- `memory` is what the new table's place holds
unfoldable pub to_hash_table :
    (u : Uthash ℕ)
    → (memory : Option u.Table) → NodeList
    → (ℕ → Bytes)
    → Option (HashMap u × NodeList)
unfolding visit HashTable.new_hash_table HashTable.add_entry
to_hash_table u memory l keyname_func =
    visit
      (λ e ht. elim (HashTable.add_entry u ht (keyname_func e) e) [
        | none ↦ none
        | some (_, ht) ↦ some ht
      ])
      l.size 0 l (HashTable.new_hash_table u memory (2 * l.size))

-- the new list and the old one
unfoldable pub map : NodeList → (ℕ → ℕ) → Option (NodeList × NodeList)
unfolding visit append
map l func = visit (λ x ret. append ret (func x)) l.size 1 l new_list

-- `func` changes a state of its own
unfoldable pub for_each {ℓ} : {S : Type ℓ} → NodeList → (ℕ → S → S) → S → Option (S × NodeList)
unfolding visit
for_each l func s = visit (λ x s. some (func x s)) l.size 1 l s

-- `HashTable::toList`; `add` puts in front
unfoldable pub to_list : (u : Uthash ℕ) → HashMap u → Option NodeList
unfolding HashTable.for_each add
to_list u h =
    elim (HashTable.for_each u h (λ key x l. elim l [ none ↦ none | some l ↦ add l x ])
      (some new_list)) [ none ↦ none | some l ↦ l ]
