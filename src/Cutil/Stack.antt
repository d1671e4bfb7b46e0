-- ===== src/Cutil/Stack.antt =====
-- cutil/stack.c: a bounded stack of pointers. `int head` is its 32-bit pattern, so that -1 is
-- `minus_one`; `buf` is the memory behind the struct. An element is a pointer, `NULL` is 0.
pub mod Refines
use raiezau.Base.{
  ℕ, ◌+◌, ◌-◌, ◌%◌, ◌^◌, Bool, not, Option, none, some, List, ◌==◌, if◌then◌else◌, get_elem?, set,
}

pub record Stack : Type 0 where
  pub head : ℕ
  pub buffer_size : ℕ
  pub buf : List ℕ

abbrev pub minus_one : ℕ
minus_one = 2 ^ 32 - 1

abbrev pub null : ℕ
null = 0

-- `memory` is what `malloc` returns; `buffer_size` goes into an `unsigned`.
unfoldable pub create : (buffer_size : ℕ) (memory : List ℕ) → Stack
create n memory = record { head = minus_one; buffer_size = n % 2 ^ 32; buf = memory }

unfoldable pub size : Stack → ℕ
size s = (s.head + 1) % 2 ^ 32

unfoldable pub is_empty : Stack → Bool
is_empty s = s.head == minus_one

unfoldable pub is_full : Stack → Bool
is_full s = s.head == (s.buffer_size + 2 ^ 32 - 1) % 2 ^ 32

unfoldable pub push : Stack → ℕ → Stack
unfolding is_full
push s element =
    let head = (s.head + 1) % 2 ^ 32 in
    if not (is_full s) then record s { head = head; buf = set s.buf head element } else s

-- `none` is a read outside of the buffer
unfoldable pub peek : Stack → Option ℕ
peek s = get_elem? s.buf s.head

-- the element, and the stack that is left; `none` is a read outside of the buffer
unfoldable pub pop : Stack → Option (ℕ × Stack)
unfolding is_empty
pop s =
    if not (is_empty s)
    then elim (get_elem? s.buf s.head) [
      | none ↦ none
      | some tmp ↦ some (tmp, record s { head = (s.head + 2 ^ 32 - 1) % 2 ^ 32 })
    ]
    else some (null, s)
