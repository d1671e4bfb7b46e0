-- ===== src/Cutil/LinkedList.antt =====
-- cutil/list.c and list_node.h: a linked list between two sentinels, with a cursor. A pointer to a
-- node is the node's position in the list's nodes; a freed node leaves `none`. An operation that
-- follows a pointer to no node is `none`. An element is a pointer, and `NULL` is 0. The mutex makes
-- each operation one step. Positions and sizes are below 2 ^ 31, where the `int` of a loop holds them.
pub mod Cursor
pub mod Insert
pub mod Linked
pub mod Simple
use raiezau.Base.{
  ℕ, zero, suc, ◌+◌, ◌-◌, ◌%◌, ◌^◌, Bool, true, false, not, ◌&&◌, Option, none, some, List, [], ◌∷◌,
  ◌++◌, ◌==◌, leb, if◌then◌else◌, length, get_elem?, set,
}
use raiezau.Base.Bytes.{Bytes}
use raiezau.Cutil.HashTable
use raiezau.Cutil.Uthash.{Uthash}

-- `struct list_node`, where `element` is `data`; `next` of a new node is not initialised: `none`
pub record Node : Type 0 where
  pub element : ℕ
  pub next : Option ℕ
  pub is_sentinel : Bool

-- `struct list` and its nodes. `frees` is the flag `LI_FREE`, and `released` are the elements that
-- `free_element` was called with. `last` is never used.
pub record LinkedList : Type 0 where
  pub nodes : List (Option Node)
  pub front_sentinel : ℕ
  pub cursor : ℕ
  pub size : ℕ
  pub curpos : ℕ
  pub frees : Bool
  pub released : List ℕ

unfoldable pub load_node : List (Option Node) → ℕ → Option Node
load_node nodes p = elim (get_elem? nodes p) [ none ↦ none | some cell ↦ cell ]

unfoldable pub node_get_next : List (Option Node) → ℕ → Option ℕ
unfolding load_node
node_get_next nodes p = elim (load_node nodes p) [ none ↦ none | some x ↦ x.next ]

unfoldable pub node_set_next : List (Option Node) → ℕ → ℕ → Option (List (Option Node))
unfolding load_node
node_set_next nodes p q = elim (load_node nodes p) [
  | none ↦ none
  | some x ↦ some (set nodes p (some (record x { next = some q })))
]

-- the loop of `list_get_node`
unfoldable pub walk : List (Option Node) → ℕ → ℕ → Option ℕ
unfolding node_get_next
walk nodes zero p = some p
walk nodes (suc k) p = elim (node_get_next nodes p) [ none ↦ none | some q ↦ walk nodes k q ]

unfoldable pub list_get_node : LinkedList → ℕ → Option (ℕ × LinkedList)
unfolding walk
list_get_node l n =
    let node =
      if leb l.curpos n
      then walk l.nodes (n - l.curpos) l.cursor
      else walk l.nodes n l.front_sentinel in
    elim node [ none ↦ none | some p ↦ some (p, record l { cursor = p; curpos = n }) ]

unfoldable pub list_get : LinkedList → ℕ → Option (ℕ × LinkedList)
unfolding list_get_node load_node
list_get l n = elim (list_get_node l n) [
  | none ↦ none
  | some (p, l) ↦ elim (load_node l.nodes p) [ none ↦ none | some x ↦ some (x.element, l) ]
]

-- `tmp = node_new(element, 0)`, put behind the node `previous`
unfoldable pub link_behind : ℕ → ℕ → LinkedList → Option LinkedList
unfolding node_get_next node_set_next
link_behind previous element l =
    let tmp = length l.nodes in
    elim (node_get_next l.nodes previous) [
      | none ↦ none
      | some next ↦
          let new : Node = record { element = element; next = some next; is_sentinel = false } in
          elim (node_set_next (l.nodes ++ some new ∷ []) previous tmp) [
            | none ↦ none
            | some nodes ↦ some (record l { nodes = nodes; size = (l.size + 1) % 2 ^ 64 })
          ]
    ]

unfoldable pub list_add : LinkedList → ℕ → Option LinkedList
unfolding link_behind
list_add l element = elim (link_behind l.front_sentinel element l) [
  | none ↦ none
  | some l ↦ some (if not (l.curpos == 0) then record l { curpos = (l.curpos + 1) % 2 ^ 32 } else l)
]

unfoldable pub list_insert : LinkedList → ℕ → ℕ → Option LinkedList
unfolding list_get_node link_behind
list_insert l n element = elim (list_get_node l ((n + 2 ^ 32 - 1) % 2 ^ 32)) [
  | none ↦ none
  | some (previous, l) ↦ link_behind previous element l
]

unfoldable pub list_append : LinkedList → ℕ → Option LinkedList
unfolding list_insert
list_append l element = list_insert l ((l.size + 1) % 2 ^ 32) element

unfoldable pub list_append_all : LinkedList → List ℕ → Option LinkedList
unfolding list_append
list_append_all l [] = some l
list_append_all l (x ∷ xs) = elim (list_append l x) [ none ↦ none | some l ↦ list_append_all l xs ]

-- `elements` are the arguments before the NULL, with the flag `LI_ELEM`
unfoldable pub list_new : (frees : Bool) → (elements : List ℕ) → Option LinkedList
unfolding list_append_all
list_new frees elements =
    let front : Node = record { element = 0; next = some 1; is_sentinel = true } in
    let back : Node = record { element = 0; next = none; is_sentinel = true } in
    list_append_all
      (record {
        nodes = some front ∷ some back ∷ [];
        front_sentinel = 0;
        cursor = 0;
        size = 0;
        curpos = 0;
        frees = frees;
        released = [];
      })
      elements

-- `l2` changes too: its cursor moves; `rounds` is what is left of the loop
unfoldable pub append_loop : ℕ → ℕ → LinkedList → LinkedList → Option (LinkedList × LinkedList)
unfolding list_get list_append
append_loop zero i l1 l2 = some (l1, l2)
append_loop (suc rounds) i l1 l2 = elim (list_get l2 i) [
  | none ↦ none
  | some (x, l2) ↦ elim (list_append l1 x) [
    | none ↦ none
    | some l1 ↦ append_loop rounds (suc i) l1 l2
  ]
]

unfoldable pub list_append_list : LinkedList → LinkedList → Option (LinkedList × LinkedList)
unfolding append_loop
list_append_list l1 l2 = append_loop l2.size 1 l1 l2

unfoldable pub list_copy : LinkedList → Option (LinkedList × LinkedList)
unfolding list_new list_append_list
list_copy l = elim (list_new false []) [ none ↦ none | some n ↦ list_append_list n l ]

-- `free_element`, if the list frees its elements, and `node_free`
unfoldable pub release : ℕ → ℕ → LinkedList → LinkedList
release p element l = record l {
  nodes = set l.nodes p none;
  released = if l.frees then l.released ++ element ∷ [] else l.released;
}

-- the nodes from `node` up to the back sentinel; a round frees one node, which is not read again
unfoldable pub free_loop : ℕ → ℕ → LinkedList → Option LinkedList
unfolding load_node release
free_loop zero node l = none
free_loop (suc fuel) node l = elim (load_node l.nodes node) [
  | none ↦ none
  | some x ↦ elim x.is_sentinel [
    | true ↦ some (record l { nodes = set (set l.nodes node none) l.front_sentinel none })
    | false ↦ elim x.next [ none ↦ none | some tmp ↦ free_loop fuel tmp (release node x.element l) ]
  ]
]

-- the argument `none` is NULL; the result is the memory that is left
unfoldable pub list_free : Option LinkedList → Option (Option LinkedList)
unfolding free_loop node_get_next
list_free none = some none
list_free (some l) = elim (node_get_next l.nodes l.front_sentinel) [
  | none ↦ none
  | some node ↦ elim (free_loop (length l.nodes) node l) [ none ↦ none | some l ↦ some (some l) ]
]

unfoldable pub list_remove : LinkedList → ℕ → Option LinkedList
unfolding list_get_node node_get_next node_set_next load_node release
list_remove l n = elim (list_get_node l ((n + 2 ^ 32 - 1) % 2 ^ 32)) [
  | none ↦ none
  | some (previous, l) ↦ elim (node_get_next l.nodes previous) [
    | none ↦ none
    | some tmp ↦ elim (load_node l.nodes tmp) [
      | none ↦ none
      | some x ↦ elim x.next [
        | none ↦ none
        | some next ↦ elim (node_set_next l.nodes previous next) [
          | none ↦ none
          | some nodes ↦
              let l = record l { nodes = nodes; size = (l.size + 2 ^ 64 - 1) % 2 ^ 64 } in
              some (release tmp x.element l)
        ]
      ]
    ]
  ]
]

-- the test and removal in the loop of `list_remove_value`, at the node `n`
unfoldable pub remove_next : ℕ → ℕ → LinkedList → Option LinkedList
unfolding node_get_next node_set_next load_node
remove_next value n l = elim (node_get_next l.nodes n) [
  | none ↦ none
  | some next ↦ elim (load_node l.nodes next) [
    | none ↦ none
    | some x ↦
        if not x.is_sentinel && x.element == value
        then elim x.next [
          | none ↦ none
          | some behind ↦ elim (node_set_next l.nodes n behind) [
            | none ↦ none
            | some nodes ↦
                some
                  (record l { nodes = set nodes next none; size = (l.size + 2 ^ 64 - 1) % 2 ^ 64 })
          ]
        ]
        else some l
  ]
]

-- a round moves to a node further on: there are at most as many rounds as nodes
unfoldable pub remove_value_loop : ℕ → ℕ → ℕ → LinkedList → Option LinkedList
unfolding remove_next node_get_next load_node
remove_value_loop zero value n l = none
remove_value_loop (suc fuel) value n l = elim (remove_next value n l) [
  | none ↦ none
  | some l ↦ elim (node_get_next l.nodes n) [
    | none ↦ none
    | some n ↦ elim (load_node l.nodes n) [
      | none ↦ none
      | some x ↦ elim x.is_sentinel [ true ↦ some l | false ↦ remove_value_loop fuel value n l ]
    ]
  ]
]

unfoldable pub list_remove_value : LinkedList → ℕ → Option LinkedList
unfolding remove_value_loop
list_remove_value l value =
    remove_value_loop (length l.nodes) value l.front_sentinel
      (record l { curpos = 0; cursor = l.front_sentinel })

-- a loop that gets the elements from position `i` on, one for each round, and does `f` with each
unfoldable pub visit {ℓ} :
    {S : Type ℓ} → (ℕ → S → S) → ℕ → ℕ → LinkedList → S → Option (S × LinkedList)
unfolding list_get
visit f zero i l s = some (s, l)
visit f (suc rounds) i l s = elim (list_get l i) [
  | none ↦ none
  | some (x, l) ↦ visit f rounds (suc i) l (f x s)
]

-- the array is written front to back
unfoldable pub list_to_array : LinkedList → Option (List ℕ × LinkedList)
unfolding visit
list_to_array l = visit (λ x array. array ++ x ∷ []) l.size 0 l []

-- `fun` and `args` change a state of their own
unfoldable pub list_each_r {ℓ} :
    {S : Type ℓ} → LinkedList → (ℕ → S → S) → S → Option (S × LinkedList)
unfolding visit
list_each_r l fun s = visit fun l.size 1 l s

-- the new list first
unfoldable pub list_map_r : LinkedList → (ℕ → ℕ) → Option (Option LinkedList × LinkedList)
unfolding visit list_new list_append
list_map_r l fun =
    visit (λ x ret. elim ret [ none ↦ none | some ret ↦ list_append ret (fun x) ]) l.size 1 l
      (list_new false [])

unfoldable pub list_to_hashtable :
    (u : Uthash ℕ) → LinkedList → (ℕ → Bytes) → Option (u.Table × LinkedList)
unfolding visit HashTable.create HashTable.add_entry
list_to_hashtable u l element_keyname =
    visit (λ el ht. HashTable.add_entry u ht (element_keyname el) el) l.size 0 l
      (HashTable.create u)
