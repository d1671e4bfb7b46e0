-- ===== src/Cutil/Yaml.antt =====
-- cutil/yaml2.c, the reader of configuration files. libyaml is a parameter: what its calls of
-- `yaml_parser_parse` deliver, one after another, is a list in which `none` is a call that fails.
-- Each `struct yaml_wrap` that was allocated is an element of a list, and the pointer `p` to it is
-- its place counted from 1, so that 0 is NULL. A `struct list` is the list of its elements; a freed
-- key name is not told from a live one.
pub mod Mapping
pub mod Nesting
use raiezau.Base.{
  ℕ, zero, suc, ◌+◌, ◌-◌, Bool, true, false, not, Option, none, some, List, [], ◌∷◌, ◌++◌, ltb,
  if◌then◌else◌, length, get_elem?, set,
}
use raiezau.Base.Bytes.{Bytes}
use raiezau.Cutil.HashTable
use raiezau.Cutil.HashTable.{Status, success, failure}
use raiezau.Cutil.Stack
use raiezau.Cutil.Uthash.{Uthash}

-- `event.type`, with the text of a scalar; `other` is a type that the code does not name.
pub data Event : Type 0 where
  stream_end document_end sequence_start sequence_end mapping_start mapping_end other : Event
  scalar_event : Bytes → Event

module _ (u : Uthash ℕ) where
  -- `enum yaml_type` and `union yaml_content`
  pub data Content : Type 0 where
    mapping : u.Table → Content
    sequence : List ℕ → Content
    scalar : Bytes → Content

  -- The variables of `yaml2_parse_file`, with the structures that were allocated. `keyname` is
  -- `none` for NULL, `yamlw` is `none` as long as `*yamlw` is not written.
  pub record Parser : Type 0 where
    pub wraps : List Content
    pub parser_stack : Stack.Stack
    pub key : Bool
    pub keyname : Option Bytes
    pub yamlw : Option ℕ

module _ (u : Uthash ℕ) where
  unfoldable pub wrap_at : List (Content u) → ℕ → Option (Content u)
  wrap_at wraps zero = none
  wrap_at wraps (suc i) = get_elem? wraps i

  -- `newhead` goes into the content of `head`; `ht_add_entry` copies the key, which NULL is not
  unfoldable pub attach :
      List (Content u)
      → (head : ℕ) → Content u
      → Option Bytes
      → (newhead : ℕ) → Option (List (Content u))
  unfolding HashTable.add_entry
  attach wraps head (mapping t) none newhead = none
  attach wraps head (mapping t) (some k) newhead =
      some (set wraps (head - 1) (mapping (HashTable.add_entry u t k newhead)))
  attach wraps head (sequence l) keyname newhead =
      some (set wraps (head - 1) (sequence (l ++ newhead ∷ [])))
  attach wraps head (scalar s) keyname newhead = some wraps

  -- the head of the stack with its content; `none` is a read outside of the buffer or through NULL
  unfoldable pub head_of : Parser u → Option (ℕ × Content u)
  unfolding wrap_at
  head_of p = elim (Stack.peek p.parser_stack) [
    | none ↦ none
    | some head ↦ elim (wrap_at p.wraps head) [ none ↦ none | some content ↦ some (head, content) ]
  ]

  -- `none` is an access of memory that is not there
  unfoldable pub parser_stack_push : Parser u → Content u → Option Bytes → Option (Parser u)
  unfolding attach head_of
  parser_stack_push p value keyname =
      let newhead = length p.wraps + 1 in
      let wraps = p.wraps ++ value ∷ [] in
      let parser_stack = Stack.push p.parser_stack newhead in
      if ltb 0 (Stack.size p.parser_stack)
      then elim (head_of p) [
        | none ↦ none
        | some (head, content) ↦ elim (attach wraps head content keyname newhead) [
          | none ↦ none
          | some wraps ↦ some record p { wraps = wraps; parser_stack = parser_stack }
        ]
      ]
      else some record p { wraps = wraps; parser_stack = parser_stack }

  -- the popped pointer, and the parser that is left
  unfoldable pub pop_wrap : Parser u → Option (ℕ × Parser u)
  pop_wrap p = elim (Stack.pop p.parser_stack) [
    | none ↦ none
    | some (wrap, parser_stack) ↦ some (wrap, record p { parser_stack = parser_stack })
  ]

  -- a value on the stack of its own, under the key name, and off it
  unfoldable pub push_scalar : Parser u → Bytes → Option (Parser u)
  unfolding parser_stack_push pop_wrap
  push_scalar p value = elim (parser_stack_push p (scalar value) p.keyname) [
    | none ↦ none
    | some q ↦ elim (pop_wrap q) [ none ↦ none | some (wrap, r) ↦ some r ]
  ]

  -- the scalar, in what the head of the stack is; the `assert` is a fault
  unfoldable pub scalar_in : Parser u → Content u → Bytes → Option (Parser u)
  unfolding push_scalar
  scalar_in p (mapping t) value =
      if not p.key
      then some record p { keyname = some value; key = true }
      else elim (push_scalar p value) [
        | none ↦ none
        | some q ↦ some record q { keyname = none; key = false }
      ]
  scalar_in p (sequence l) value = push_scalar p value
  scalar_in p (scalar s) value = none

  unfoldable pub on_scalar : Parser u → Bytes → Option (Parser u)
  unfolding scalar_in head_of parser_stack_push
  on_scalar p value =
      if ltb 0 (Stack.size p.parser_stack)
      then elim (head_of p) [ none ↦ none | some (head, content) ↦ scalar_in p content value ]
      else parser_stack_push p (scalar value) none

  -- `*yamlw = stack_pop(parser_stack)`
  unfoldable pub pop_result : Parser u → Option (Parser u)
  unfolding pop_wrap
  pop_result p = elim (pop_wrap p) [
    | none ↦ none
    | some (wrap, q) ↦ some record q { yamlw = some wrap }
  ]

  -- a new container under the key name, which is used up
  unfoldable pub start : Parser u → Content u → Option (Parser u)
  unfolding parser_stack_push
  start p value = elim (parser_stack_push p value p.keyname) [
    | none ↦ none
    | some q ↦ some record q { keyname = none }
  ]

  -- The body of the loop for an event: `done`, and the variables.
  unfoldable pub handle_event : Parser u → Event → Option (Bool × Parser u)
  unfolding on_scalar pop_result start HashTable.create
  handle_event p stream_end = some (true, p)
  handle_event p document_end =
      if ltb 0 (Stack.size p.parser_stack)
      then elim (pop_result p) [ none ↦ none | some q ↦ some (true, q) ]
      else some (true, p)
  handle_event p sequence_start = elim (start p (sequence [])) [
    | none ↦ none
    | some q ↦ some (false, q)
  ]
  handle_event p sequence_end = elim (pop_result p) [ none ↦ none | some q ↦ some (false, q) ]
  handle_event p mapping_start =
      elim (start record p { key = false } (mapping (HashTable.create u))) [
        | none ↦ none
        | some q ↦ some (false, q)
      ]
  handle_event p mapping_end = elim (pop_result p) [ none ↦ none | some q ↦ some (false, q) ]
  handle_event p other = some (false, p)
  handle_event p (scalar_event value) = elim (on_scalar p value) [
    | none ↦ none
    | some q ↦ some (false, q)
  ]

  -- How a run of `yaml2_parse_file` ends: with an access of memory that is not there, not at all in
  -- the calls that are given, or with its result and `*yamlw` and the structures behind it.
  pub data Result : Type 0 where
    crashed waiting : Result
    returned : Status → Option ℕ → List (Content u) → Result

module _ (u : Uthash ℕ) where
  unfoldable pub parse_loop : List (Option Event) → Parser u → Result u
  unfolding handle_event
  parse_loop [] p = waiting
  parse_loop (none ∷ events) p = returned failure p.yamlw p.wraps
  parse_loop (some event ∷ events) p = elim (handle_event u p event) [
    | none ↦ crashed
    | some (done, q) ↦
        let later = parse_loop events q in if done then returned success q.yamlw q.wraps else later
  ]

  -- The parser may fail to start and the file may fail to open. `memory` is what `malloc` returns
  -- for the buffer of the stack.
  unfoldable pub yaml2_parse_file :
      (initialized opened : Bool) → (memory : List ℕ) → List (Option Event) → Result u
  unfolding parse_loop
  yaml2_parse_file initialized opened memory events =
      let p : Parser u = record {
        wraps = [];
        parser_stack = Stack.create 100 memory;
        key = false;
        keyname = none;
        yamlw = none;
      } in
      let run = parse_loop events p in
      if not initialized
      then returned failure none []
      else if not opened
      then returned failure none []
      else run
