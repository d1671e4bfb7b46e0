-- ===== src/Cutil/Yaml/Nesting.antt =====
-- What `yaml2_parse_file` makes of a mapping in which a value is a sequence.
use raiezau.Base.{
  ℕ, zero, suc, ◌+◌, ◌-◌, ◌<◌, ◌≡◌, refl, ◌∙◌, true, false, Option, none, some, List, [], ◌∷◌, ◌++◌,
  arith, length, get_elem?, set, get_elem?-set_self, get_elem?-set_ne, get_elem?-lt,
  get_elem?-append_left, get_elem?-append_length, length-append,
}
use raiezau.Base.Bytes.{Bytes}
use raiezau.Cutil.HashTable
use raiezau.Cutil.Stack
use raiezau.Cutil.Stack.{Stack, size, push, pop, peek}
use raiezau.Cutil.Uthash.{Uthash}
use raiezau.Cutil.Yaml.{
  Event, scalar_event, sequence_start, sequence_end, mapping_start, other, Content, mapping,
  sequence, scalar, Parser, crashed, wrap_at, attach, head_of, parser_stack_push, pop_wrap,
  push_scalar, scalar_in, on_scalar, pop_result, start, handle_event, parse_loop, yaml2_parse_file,
}
use raiezau.Cutil.Yaml.Mapping.{
  Nested, push-Nested, pop-Nested, size-Nested, new_Nested, at_key, with_key, tabled, values, pairs,
  parse_step, scalar_step, read_key, read_pairs, start_mapping,
}

-- the events of the items
unfoldable pub items : List Bytes → List (Option Event)
items [] = []
items (v ∷ vs) = some (scalar_event v) ∷ items vs

module _ {u : Uthash ℕ} where
  wrap_at_lem :
      (wraps : List (Content u)) (n : ℕ) → 0 < n → wrap_at u wraps n ≡ get_elem? wraps (n - 1)
  unfolding wrap_at
  wrap_at_lem wraps zero h = absurd (omega arith)
  wrap_at_lem wraps (suc i) h = let e : suc i - 1 ≡ i = omega arith in rw e refl

  -- The reader of a value of the outer mapping, in the sequence `n`: the flag of the key is still up.
  record InSequence (p : Parser u) (n : ℕ) : Type 0 where
    key : p.key ≡ true
    keyname : p.keyname ≡ none
    above : 1 < n
    nested : Nested p.parser_stack (n ∷ 1 ∷ [])
    outer : u.Table
    outer_at : get_elem? p.wraps 0 ≡ some (mapping outer)
    inner : List ℕ
    inner_at : get_elem? p.wraps (n - 1) ≡ some (sequence inner)

  head_of_sequence :
      (p : Parser u) (n : ℕ) (h : InSequence p n) → head_of u p ≡ some (n, sequence h.inner)
  unfolding head_of
  head_of_sequence p n h =
      rw (head_of, (size-Nested _ n _ h.nested).1)
        (rw (wrap_at_lem p.wraps n (omega (arith, h.above)), h.inner_at) refl)

  item :
      (p : Parser u) (n : ℕ) (v : Bytes)
      → InSequence p n
      → (q : Parser u) × (on_scalar u p v ≡ some q) × InSequence q n
  unfolding on_scalar scalar_in push_scalar parser_stack_push pop_wrap attach
  item p n v h =
      let new = length p.wraps + 1 in
      let grown = push-Nested _ new _ h.nested (omega arith) in
      let (s', e, nested) = pop-Nested _ new _ grown in
      let wraps = set (p.wraps ++ scalar v ∷ []) (n - 1) (sequence (h.inner ++ new ∷ [])) in
      (
        record p { wraps = wraps; parser_stack = s' },
        rw ((size-Nested _ n _ h.nested).0, head_of_sequence p n h, scalar_in)
            (rw
              (
                push_scalar,
                parser_stack_push,
                (size-Nested _ n _ h.nested).0,
                head_of_sequence p n h,
              )
              (rw (pop_wrap, e) refl)),
        record {
          key = h.key;
          keyname = h.keyname;
          above = h.above;
          nested = nested;
          outer = h.outer;
          outer_at =
              get_elem?-set_ne _ (n - 1) 0 _ (λ e. omega (arith, h.above))
              ∙ get_elem?-append_left p.wraps (scalar v ∷ []) 0 h.outer_at;
          inner = h.inner ++ new ∷ [];
          inner_at = get_elem?-set_self _ (n - 1) _ (
              omega (
                arith,
                get_elem?-lt p.wraps (n - 1) h.inner_at,
                length-append p.wraps (scalar v ∷ []),
              ));
        },
      )

  read_items :
      (vs : List Bytes) (rest : List (Option Event)) (p : Parser u) (n : ℕ)
      → InSequence p n
      → (q : Parser u) × (parse_loop u (items vs ++ rest) p ≡ parse_loop u rest q) × InSequence q n
  unfolding items
  read_items [] rest p n h = (p, refl, h)
  read_items (v ∷ vs) rest p n h =
      let (q, e, h1) = item p n v h in
      let (r, e', h2) = read_items vs rest q n h1 in
      (r, scalar_step p q v (items vs ++ rest) e ∙ e', h2)

  open_sequence :
      (s : Stack) (t : u.Table) (cs : List (Content u)) (k : Bytes)
      → Nested s (1 ∷ [])
      → (q : Parser u) × (handle_event u (with_key u (mapping t ∷ cs) s k none) sequence_start
          ≡ some (false, q))
        × InSequence q (suc (length cs) + 1)
  unfolding handle_event start parser_stack_push head_of wrap_at attach
  open_sequence s t cs k h =
      let new = suc (length cs) + 1 in
      let (more, e) = size-Nested s 1 [] h in
      let wraps = mapping (HashTable.add_entry u t k new) ∷ cs ++ sequence [] ∷ [] in
      let at : new - 1 ≡ suc (length cs) = omega arith in
      let last_at : get_elem? wraps (new - 1) ≡ some (sequence []) =
        rw at (get_elem?-append_length cs [] (sequence [])) in
      (
        record {
          wraps = wraps;
          parser_stack = push s new;
          key = true;
          keyname = none;
          yamlw = none;
        },
        rw (handle_event, more, e) refl,
        record {
          key = refl;
          keyname = refl;
          above = omega arith;
          nested = push-Nested s new _ h (omega arith);
          outer = HashTable.add_entry u t k new;
          outer_at = refl;
          inner = [];
          inner_at = last_at;
        },
      )

  -- after the sequence the flag is still up, and there is no key name
  no_key :
      (p : Parser u) (s : Stack) (v : Bytes) (yw : Option ℕ) {t : u.Table}
      → Nested s (1 ∷ [])
      → p.key ≡ true
      → p.keyname ≡ none
      → get_elem? p.wraps 0 ≡ some (mapping t)
      → on_scalar u record p { parser_stack = s; yamlw = yw } v ≡ none
  unfolding on_scalar head_of wrap_at scalar_in push_scalar parser_stack_push attach
  no_key p s v yw h key keyname at =
      let (more, e) = size-Nested s 1 [] h in
      rw (more, e, at, key)
        (rw (push_scalar, parser_stack_push, more, e, at) (rw (keyname, attach) refl))

  close_sequence :
      (p : Parser u) (n : ℕ)
      → InSequence p n
      → (s : Stack) × (handle_event u p sequence_end
          ≡ some (false, record p { parser_stack = s; yamlw = some n }))
        × Nested s (1 ∷ [])
  unfolding handle_event pop_result pop_wrap
  close_sequence p n h =
      let (s, e, h') = pop-Nested _ n _ h.nested in (s, rw (handle_event, e) refl, h')

  crash :
      (p : Parser u) (v : Bytes) (rest : List (Option Event))
      → on_scalar u p v ≡ none
      → parse_loop u (some (scalar_event v) ∷ rest) p ≡ crashed
  unfolding parse_loop handle_event
  crash p v rest e = rw (parse_loop, handle_event, e) refl

-- What libyaml delivers of a file that is a mapping: pairs of scalars, a key with a sequence of
-- scalars, and one more key.
unfoldable pub sequence_events :
    List (Bytes × Bytes) → Bytes → List Bytes → Bytes → List (Option Event) → List (Option Event)
unfolding pairs items
sequence_events ps k vs next rest =
    some other
    ∷ some other
    ∷ some mapping_start
    ∷ (pairs ps
        ++ (some (scalar_event k)
            ∷ some sequence_start
            ∷ (items vs ++ (some sequence_end ∷ some (scalar_event next) ∷ rest))))

-- In a mapping a key after one whose value is a sequence of scalars, behind any pairs of scalars, makes
-- `yaml2_parse_file` crash, if the file opens, the parser starts and the stack has its 100 elements:
-- the code takes that key for a value, and copies a key name that is NULL.
pub parse_sequence :
    (u : Uthash ℕ) (memory : List ℕ) (ps : List (Bytes × Bytes)) (k : Bytes) (vs : List Bytes)
    (next : Bytes) (rest : List (Option Event))
    → length memory ≡ 100
    → yaml2_parse_file u true true memory (sequence_events ps k vs next rest) ≡ crashed
unfolding yaml2_parse_file sequence_events
parse_sequence u memory ps k vs next rest e =
    let s = Stack.create 100 memory in
    let h : Nested s [] = new_Nested memory e in
    let p = at_key u [] s none in
    let end = some sequence_end ∷ some (scalar_event next) ∷ rest in
    let value = some sequence_start ∷ (items vs ++ end) in
    let (s1, e1, h1) =
      read_pairs u none ps (some (scalar_event k) ∷ value) (push s 1) (HashTable.create u) []
        (push-Nested s 1 [] h (omega arith)) in
    let t = tabled u (HashTable.create u) 2 ps in
    let p1 = with_key u (mapping t ∷ values u ps) s1 k none in
    let (p2, e2, h2) = open_sequence s1 t (values u ps) k h1 in
    let (p3, e3, h3) = read_items vs end p2 _ h2 in
    let (s4, e4, h4) = close_sequence p3 _ h3 in
    let opening = some mapping_start ∷ (pairs ps ++ some (scalar_event k) ∷ value) in
    parse_step p p other (some other ∷ opening) (unfold handle_event in refl)
    ∙ parse_step p p other opening (unfold handle_event in refl)
    ∙ parse_step p _ mapping_start (pairs ps ++ some (scalar_event k) ∷ value) (start_mapping u s h)
    ∙ e1
    ∙ scalar_step (at_key u (mapping t ∷ values u ps) s1 none) p1 k value
        (read_key h1 t (values u ps) none k)
    ∙ parse_step p1 p2 sequence_start (items vs ++ end) e2
    ∙ e3
    ∙ parse_step p3 _ sequence_end (some (scalar_event next) ∷ rest) e4
    ∙ crash _ next rest (no_key p3 s4 next _ h4 h3.key h3.keyname h3.outer_at)
