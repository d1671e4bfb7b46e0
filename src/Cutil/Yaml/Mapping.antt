-- ===== src/Cutil/Yaml/Mapping.antt =====
-- What `yaml2_parse_file` makes of a file that is a mapping of scalars.
use raiezau.Base.{
  ℕ, suc, ◌+◌, ◌<◌, ◌≡◌, refl, sym, ap, ◌∙◌, true, false, Option, none, some, List, [], ◌∷◌, ◌++◌,
  ltb, arith, length, append_assoc, append-nil, length-append,
}
use raiezau.Base.Bytes.{Bytes}
use raiezau.Cutil.HashTable
use raiezau.Cutil.HashTable.{success}
use raiezau.Cutil.Stack
use raiezau.Cutil.Stack.{Stack, size, push, pop, peek}
use raiezau.Cutil.Stack.Refines.{
  Holds, top, pushed, popped, push-Holds, pop-Holds, observers-Holds, create-Holds,
}
use raiezau.Cutil.Uthash.{Uthash}
use raiezau.Cutil.Yaml.{
  Event, scalar_event, mapping_start, mapping_end, document_end, other, Content, mapping, scalar,
  Parser, returned, wrap_at, attach, head_of, parser_stack_push, pop_wrap, push_scalar, scalar_in,
  on_scalar, pop_result, start, handle_event, parse_loop, yaml2_parse_file,
}

-- an event that leaves the loop running
pub parse_step :
    {u : Uthash ℕ} (p q : Parser u) (e : Event) (events : List (Option Event))
    → handle_event u p e ≡ some (false, q)
    → parse_loop u (some e ∷ events) p ≡ parse_loop u events q
unfolding parse_loop
parse_step p q e events h = rw (parse_loop, h) refl

pub scalar_step :
    {u : Uthash ℕ} (p q : Parser u) (v : Bytes) (events : List (Option Event))
    → on_scalar u p v ≡ some q
    → parse_loop u (some (scalar_event v) ∷ events) p ≡ parse_loop u events q
unfolding handle_event
scalar_step p q v events h = parse_step p q (scalar_event v) events (rw (handle_event, h) refl)

-- The stack of the reader, of size 100, with these pointers.
pub record Nested (s : Stack) (xs : List ℕ) : Type 0 where
  pub held : Holds s xs
  pub room : s.buffer_size ≡ 100

push-buffer_size : (s : Stack) (x : ℕ) → (push s x).buffer_size ≡ s.buffer_size
unfolding push
push-buffer_size s x = ground arith

pop-buffer_size : (s s' : Stack) (x : ℕ) → pop s ≡ some (x, s') → s'.buffer_size ≡ s.buffer_size
unfolding pop
pop-buffer_size s s' x e = ground arith

pub push-Nested :
    (s : Stack) (x : ℕ) (xs : List ℕ) → Nested s xs → length xs < 100 → Nested (push s x) (x ∷ xs)
unfolding pushed
push-Nested s x xs h lt =
    let less : ltb (length xs) s.buffer_size ≡ true = ground (arith, h.room) in
    record { held = rw less at (push-Holds xs x h.held); room = push-buffer_size s x ∙ h.room }

pub pop-Nested :
    (s : Stack) (x : ℕ) (xs : List ℕ)
    → Nested s (x ∷ xs)
    → (s' : Stack) × (pop s ≡ some (x, s')) × Nested s' xs
unfolding popped
pop-Nested s x xs h =
    let (s', e, held) = pop-Holds (x ∷ xs) h.held in
    (s', e, record { held = held; room = pop-buffer_size s s' x e ∙ h.room })

pub new_Nested : (memory : List ℕ) → length memory ≡ 100 → Nested (Stack.create 100 memory) []
unfolding Stack.create
new_Nested memory e = record {
  held = unfold Stack.create in create-Holds 100 memory e (omega arith);
  room = omega arith;
}

-- the tests of the code on a stack that is not empty
pub size-Nested :
    (s : Stack) (x : ℕ) (xs : List ℕ)
    → Nested s (x ∷ xs)
    → (ltb 0 (size s) ≡ true) × (peek s ≡ some x)
unfolding top
size-Nested s x xs h = let (n, _, _, e) = observers-Holds (x ∷ xs) h.held in (ground (arith, n), e)

module _ (u : Uthash ℕ) where
  -- A reader of a mapping that has just started it or read one of its values.
  abbrev pub at_key : List (Content u) → Stack → Option ℕ → Parser u
  at_key wraps s yw = record {
    wraps = wraps;
    parser_stack = s;
    key = false;
    keyname = none;
    yamlw = yw;
  }

  -- A reader of a mapping that has read a key.
  abbrev pub with_key : List (Content u) → Stack → Bytes → Option ℕ → Parser u
  with_key wraps s k yw = record {
    wraps = wraps;
    parser_stack = s;
    key = true;
    keyname = some k;
    yamlw = yw;
  }

  -- The mapping and its values after more keys: the values are numbered from `n`.
  unfoldable pub tabled : u.Table → ℕ → List (Bytes × Bytes) → u.Table
  tabled t n [] = t
  tabled t n ((k, v) ∷ ps) = tabled (HashTable.add_entry u t k n) (n + 1) ps

  unfoldable pub values : List (Bytes × Bytes) → List (Content u)
  values [] = []
  values ((k, v) ∷ ps) = scalar v ∷ values ps

module _ {u : Uthash ℕ} {s : Stack} {xs : List ℕ} (h : Nested s (1 ∷ xs)) (t : u.Table)
    (cs : List (Content u)) (yw : Option ℕ) where
  pub read_key :
      (k : Bytes)
      → on_scalar u (at_key u (mapping t ∷ cs) s yw) k ≡ some (with_key u (mapping t ∷ cs) s k yw)
  unfolding on_scalar head_of wrap_at scalar_in
  read_key k = let (more, e) = size-Nested s 1 xs h in rw (more, e) refl

  read_value :
      (k v : Bytes)
      → length xs < 99
      → (s' : Stack) × (on_scalar u (with_key u (mapping t ∷ cs) s k yw) v
          ≡ some (
              at_key u
                (mapping (HashTable.add_entry u t k (suc (length cs) + 1)) ∷ cs ++ scalar v ∷ [])
                s'
                yw))
        × Nested s' (1 ∷ xs)
  unfolding on_scalar head_of wrap_at scalar_in push_scalar parser_stack_push attach pop_wrap
  read_value k v lt =
      let (more, e) = size-Nested s 1 xs h in
      let new = suc (length cs) + 1 in
      let (s', popped, held) =
        pop-Nested _ new (1 ∷ xs) (push-Nested s new (1 ∷ xs) h (omega arith)) in
      (s', rw (more, e) (rw (more, e) (rw popped refl)), held)

-- the calls for the keys and the values
unfoldable pub pairs : List (Bytes × Bytes) → List (Option Event)
pairs [] = []
pairs ((k, v) ∷ ps) = some (scalar_event k) ∷ some (scalar_event v) ∷ pairs ps

module _ (u : Uthash ℕ) (yw : Option ℕ) where
  pub read_pairs :
      (ps : List (Bytes × Bytes)) (rest : List (Option Event)) (s : Stack) (t : u.Table)
      (cs : List (Content u))
      → Nested s (1 ∷ [])
      → (s' : Stack) × (parse_loop u (pairs ps ++ rest) (at_key u (mapping t ∷ cs) s yw)
          ≡ parse_loop u rest
              (at_key u (mapping (tabled u t (suc (length cs) + 1) ps) ∷ cs ++ values u ps) s' yw))
        × Nested s' (1 ∷ [])
  unfolding pairs tabled values
  read_pairs [] rest s t cs h =
      (s, ap (λ l. parse_loop u rest (at_key u (mapping t ∷ l) s yw)) (sym (append-nil cs)), h)
  read_pairs ((k, v) ∷ ps) rest s t cs h =
      let (s1, e1, h1) = read_value h t cs yw k v (omega arith) in
      let t1 = HashTable.add_entry u t k (suc (length cs) + 1) in
      let (s2, e2, h2) = read_pairs ps rest s1 t1 (cs ++ scalar v ∷ []) h1 in
      let longer : suc (length (cs ++ scalar v ∷ [])) + 1 ≡ suc (length cs) + 1 + 1 =
        omega (arith, length-append cs (scalar v ∷ [])) in
      let more = some (scalar_event v) ∷ (pairs ps ++ rest) in
      (
        s2,
        scalar_step _ _ k more (read_key h t cs yw k)
            ∙ scalar_step _ _ v (pairs ps ++ rest) e1
            ∙ e2
            ∙ rw (longer, append_assoc cs) refl,
        h2,
      )

-- What libyaml delivers of a file that is one mapping of scalars, in blocks or in braces.
unfoldable pub mapping_events : List (Bytes × Bytes) → List (Option Event) → List (Option Event)
mapping_events ps rest =
    some other
    ∷ some other
    ∷ some mapping_start
    ∷ (pairs ps ++ (some mapping_end ∷ some document_end ∷ rest))

module _ (u : Uthash ℕ) where
  pub start_mapping :
      (s : Stack)
      → Nested s []
      → handle_event u (at_key u [] s none) mapping_start
        ≡ some (false, at_key u (mapping (HashTable.create u) ∷ []) (push s 1) none)
  unfolding handle_event start parser_stack_push
  start_mapping s h =
      let empty : ltb 0 (size s) ≡ false = ground (arith, (observers-Holds [] h.held).0) in
      rw (handle_event, empty) refl

  end_mapping :
      (s : Stack) (wraps : List (Content u))
      → Nested s (1 ∷ [])
      → (s' : Stack) × (handle_event u (at_key u wraps s none) mapping_end
          ≡ some (false, at_key u wraps s' (some 1)))
        × Nested s' []
  unfolding handle_event pop_result pop_wrap
  end_mapping s wraps h =
      let (s', e, h') = pop-Nested s 1 [] h in (s', rw (handle_event, e) refl, h')

  end_document :
      (s : Stack) (wraps : List (Content u)) (rest : List (Option Event))
      → Nested s []
      → parse_loop u (some document_end ∷ rest) (at_key u wraps s (some 1))
        ≡ returned success (some 1) wraps
  unfolding parse_loop handle_event
  end_document s wraps rest h =
      let empty : ltb 0 (size s) ≡ false = ground (arith, (observers-Holds [] h.held).0) in
      rw (parse_loop, empty) refl

  -- For a file that is one mapping of scalars, if it opens and libyaml's parser starts, and the memory
  -- for the stack has its 100 elements, `yaml2_parse_file` returns 0 and a mapping
  -- whose entries are the file's keys with their values, in the file's order.
  pub parse_mapping :
      (memory : List ℕ) (ps : List (Bytes × Bytes)) (rest : List (Option Event))
      → length memory ≡ 100
      → yaml2_parse_file u true true memory (mapping_events ps rest)
        ≡ returned success (some 1) (mapping (tabled u (HashTable.create u) 2 ps) ∷ values u ps)
  unfolding yaml2_parse_file mapping_events
  parse_mapping memory ps rest e =
      let s = Stack.create 100 memory in
      let h : Nested s [] = new_Nested memory e in
      let p = at_key u [] s none in
      let closing = some mapping_end ∷ some document_end ∷ rest in
      let (s1, e1, h1) =
        read_pairs u none ps closing (push s 1) (HashTable.create u) []
          (push-Nested s 1 [] h (omega arith)) in
      let (s2, e2, h2) = end_mapping s1 _ h1 in
      let opening = some mapping_start ∷ (pairs ps ++ closing) in
      parse_step p p other (some other ∷ opening) (unfold handle_event in refl)
      ∙ parse_step p p other opening (unfold handle_event in refl)
      ∙ parse_step p _ mapping_start (pairs ps ++ closing) (start_mapping s h)
      ∙ e1
      ∙ parse_step _ _ mapping_end (some document_end ∷ rest) e2
      ∙ end_document s2 _ rest h2
