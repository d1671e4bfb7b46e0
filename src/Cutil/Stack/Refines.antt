-- ===== src/Cutil/Stack/Refines.antt =====
-- The stack of cutil/stack.c implements a list of at most `buffer_size` elements, the top first.
use raiezau.Base.{
  ℕ, ◌+◌, ◌-◌, ◌%◌, ◌^◌, ◌<◌, ◌≤◌, ◌≡◌, ◌↔◌, get_elem?-ge, refl, true, false, Option, none, some,
  List, [], ◌∷◌, arith, get_elem?, length, set, get_elem?-set_self, get_elem?-set_ne, length-set,
  ltb, ◌==◌, if◌then◌else◌, Bool-cases, inl, inr,
}
use raiezau.Cutil.Stack.{Stack, minus_one, null, create, size, is_empty, is_full, push, peek, pop}

-- The buffer holds the elements, the bottom one at index 0.
abbrev pub Stored : List ℕ → List ℕ → Type 0
Stored buf [] = Unit {0}
Stored buf (x ∷ xs) = (get_elem? buf (length xs) ≡ some x) × Stored buf xs

pub record Holds (s : Stack) (xs : List ℕ) : Type 0 where
  pub head : s.head ≡ (length xs + minus_one) % 2 ^ 32
  pub bound : length xs ≤ s.buffer_size
  pub room : length s.buf ≡ s.buffer_size
  -- an `int` counts the elements
  pub small : s.buffer_size < 2 ^ 31
  pub stored : Stored s.buf xs

-- The first element of a list.
unfoldable pub top : List ℕ → Option ℕ
top [] = none
top (x ∷ xs) = some x

-- A push on a stack of bounded size, and a pop.
unfoldable pub pushed : ℕ → ℕ → List ℕ → List ℕ
pushed n x xs = if ltb (length xs) n then x ∷ xs else xs

unfoldable pub popped : List ℕ → ℕ × List ℕ
popped [] = (null, [])
popped (x ∷ xs) = (x, xs)

Stored-set : (buf xs : List ℕ) (i x : ℕ) → length xs ≤ i → Stored buf xs → Stored (set buf i x) xs
Stored-set buf [] i x le h = tt
Stored-set buf (y ∷ xs) i x le (e, h) = (
  rw (get_elem?-set_ne buf i (length xs) x (omega arith)) e,
  Stored-set buf xs i x (omega arith) h,
)

module _ {s : Stack} where
  push_room :
      (xs : List ℕ) (x : ℕ) → Holds s xs → length xs < s.buffer_size → Holds (push s x) (x ∷ xs)
  unfolding push
  push_room xs x h lt =
      let full : (is_full s) ≡ false = unfold is_full in ground arith in
      let at : (s.head + 1) % 2 ^ 32 ≡ length xs = omega arith in
      rw (full, at)
        record {
          head = omega arith;
          bound = omega arith;
          room = rw length-set h.room;
          small = h.small;
          stored = (
            get_elem?-set_self s.buf (length xs) x (omega arith),
            Stored-set s.buf xs (length xs) x (omega arith) h.stored,
          );
        }

  push_full : (xs : List ℕ) (x : ℕ) → Holds s xs → length xs ≡ s.buffer_size → push s x ≡ s
  unfolding push is_full
  push_full xs x h e = let b = h.small in ground (arith, h.head)

  pop_top :
      (x : ℕ) (xs : List ℕ) → Holds s (x ∷ xs) → (s' : Stack) × (pop s ≡ some (x, s')) × Holds s' xs
  unfolding pop is_empty
  pop_top x xs h =
      let b = h.bound in
      let c = h.small in
      let e : (s.head == minus_one) ≡ false = ground (arith, h.head) in
      let at : s.head ≡ length xs = omega (arith, h.head) in
      let read : get_elem? s.buf s.head ≡ some x = rw at h.stored.0 in
      (
        record s { head = (s.head + 2 ^ 32 - 1) % 2 ^ 32 },
        rw (e, read) refl,
        record {
          head = omega arith;
          bound = omega arith;
          room = h.room;
          small = h.small;
          stored = h.stored.1;
        },
      )

  pop_empty : Holds s [] → pop s ≡ some (null, s)
  unfolding pop is_empty
  pop_empty h = ground (arith, h.head)

  -- `stack_push` on a stack that holds a list puts the element on top of the list if the list is
  -- shorter than the buffer, and leaves the list as it is otherwise.
  pub push-Holds : (xs : List ℕ) (x : ℕ) → Holds s xs → Holds (push s x) (pushed s.buffer_size x xs)
  unfolding pushed
  push-Holds xs x h = elim (Bool-cases (ltb (length xs) s.buffer_size)) [
    | inl e ↦ rw e (push_room xs x h (ground arith))
    | inr e ↦
        let full : length xs ≡ s.buffer_size = ground (arith, h.bound) in
        rw (e, push_full xs x h full) h
  ]

  -- `stack_pop` on a stack that holds a list returns the list's first element and leaves the rest;
  -- on an empty one it returns NULL. It never reads outside of the buffer.
  pub pop-Holds :
      (xs : List ℕ)
      → Holds s xs
      → (s' : Stack) × (pop s ≡ some ((popped xs).0, s')) × Holds s' (popped xs).1
  unfolding popped
  pop-Holds [] h = (s, pop_empty h, h)
  pop-Holds (x ∷ xs) h = pop_top x xs h

  peek-Holds : (xs : List ℕ) → Holds s xs → peek s ≡ top xs
  unfolding peek top
  peek-Holds [] h = get_elem?-ge s.buf s.head (omega (arith, h.head, h.room, h.small))
  peek-Holds (x ∷ xs) h =
      let at : s.head ≡ length xs = omega (arith, h.head, h.bound, h.small) in rw at h.stored.0

  -- On a stack that holds a list `stack_size` is the list's length, `stack_is_empty` and
  -- `stack_is_full` compare that length with 0 and with the size of the buffer, and `stack_peek` reads
  -- the list's first element; a peek at an empty stack is a read outside of the buffer.
  pub observers-Holds :
      (xs : List ℕ)
      → Holds s xs
      → (size s ≡ length xs)
        × ((is_empty s ≡ true) ↔ (length xs ≡ 0))
        × ((is_full s ≡ true) ↔ (length xs ≡ s.buffer_size))
        × (peek s ≡ top xs)
  unfolding size is_empty is_full
  observers-Holds xs h = (
    omega (arith, h.head, h.bound, h.small),
    (ground (arith, h.head, h.bound, h.small), ground (arith, h.head, h.bound, h.small)),
    (ground (arith, h.head, h.bound, h.small), ground (arith, h.head, h.bound, h.small)),
    peek-Holds xs h,
  )

-- A new stack for fewer than 2 ^ 31 elements, in memory of that many elements, holds the empty
-- list, whatever the memory held.
pub create-Holds :
    (n : ℕ) (memory : List ℕ) → length memory ≡ n → n < 2 ^ 31 → Holds (create n memory) []
unfolding create
create-Holds n memory e lt = record {
  head = omega arith;
  bound = omega arith;
  room = omega arith;
  small = omega arith;
  stored = tt;
}
