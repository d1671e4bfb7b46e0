-- ===== src/TrackerCpp/Criterion.antt =====
-- tracker_cpp/Criterion.cpp and Criterion.hpp: the criteria of a `look`. A predicate that throws gives
-- `none`.
pub mod Matching
pub mod Selecting
use raiezau.Base.{
  ℕ, ◌+◌, Bool, true, false, not, Option, none, some, List, [], ◌∷◌, ◌++◌, ◌==◌, leb, ltb, length,
  take, drop,
}
use raiezau.Base.Bytes.{Bytes, codes, str_eq}
use raiezau.TrackerCpp.FileMgr.{File}
use raiezau.TrackerCpp.Text.{find_text, stoul, before_first}

-- `a != b` for `bool`
unfoldable pub xor : Bool → Bool → Bool
xor true b = not b
xor false b = b

module _ (field : File → ℕ) where
  unfoldable pub geq : File → Bytes → Option Bool
  unfolding stoul
  geq f ssize = elim (stoul ssize) [ none ↦ none | some n ↦ some (leb n (field f)) ]

  unfoldable pub leq : File → Bytes → Option Bool
  unfolding stoul
  leq f ssize = elim (stoul ssize) [ none ↦ none | some n ↦ some (leb (field f) n) ]

  unfoldable pub gt : File → Bytes → Option Bool
  unfolding stoul
  gt f ssize = elim (stoul ssize) [ none ↦ none | some n ↦ some (ltb n (field f)) ]

  unfoldable pub lt : File → Bytes → Option Bool
  unfolding stoul
  lt f ssize = elim (stoul ssize) [ none ↦ none | some n ↦ some (ltb (field f) n) ]

  unfoldable pub eqi : Bool → File → Bytes → Option Bool
  unfolding stoul xor
  eqi reversed f ssize = elim (stoul ssize) [
    | none ↦ none
    | some s ↦ some (xor (s == field f) reversed)
  ]

unfoldable pub eqs : (File → Bytes) → Bool → File → Bytes → Option Bool
unfolding xor
eqs field reversed f name = some (xor (str_eq name (field f)) reversed)

pub record Criterion : Type 0 where
  pub delim : Bytes
  pub keyword : Bytes
  pub predicate : File → Bytes → Option Bool

-- an operator and the quote behind it
abbrev pub quoted : Bytes → Bytes
quoted op = op ++ b'"' ∷ []

abbrev m_criterion : Bytes → Bytes → (File → Bytes → Option Bool) → Criterion
m_criterion delimiter keyword predicate = record {
  delim = delimiter;
  keyword = keyword;
  predicate = predicate;
}

unfoldable pub make_num_field : (File → ℕ) → Bytes → List Criterion
unfolding geq leq gt lt eqi
make_num_field field name =
    m_criterion (quoted (codes "=")) name (eqi field true)
    ∷ m_criterion (quoted (codes "!=")) name (eqi field false)
    ∷ m_criterion (quoted (codes ">=")) name (geq field)
    ∷ m_criterion (quoted (codes "<=")) name (leq field)
    ∷ m_criterion (quoted (codes ">")) name (gt field)
    ∷ m_criterion (quoted (codes "<")) name (lt field)
    ∷ []

unfoldable pub make_string_field : (File → Bytes) → Bytes → List Criterion
unfolding eqs
make_string_field field name =
    m_criterion (quoted (codes "!=")) name (eqs field true)
    ∷ m_criterion (quoted (codes "=")) name (eqs field false)
    ∷ []

-- `initCriterions`
unfoldable pub criterions : List Criterion
unfolding make_num_field make_string_field
criterions =
    make_num_field (λ f. f.file_size) (codes "filesize")
    ++ (make_num_field (λ f. f.piece_size) (codes "piecesize")
        ++ (make_string_field (λ f. f.file_name) (codes "filename")
            ++ make_string_field (λ f. f.hash) (codes "hash")))

-- `Criterion::match`
unfoldable pub matches : Criterion → Bytes → Bool
unfolding find_text
matches c value = elim (find_text c.delim value) [
  | none ↦ false
  | some at ↦ str_eq (take at value) c.keyword
]

-- the `argument` of `applyCriterion`; a text without the delimiter makes `substr` throw
unfoldable pub quoted_argument : Criterion → Bytes → Option Bytes
unfolding find_text before_first
quoted_argument c value = elim (find_text c.delim value) [
  | none ↦ none
  | some at ↦ some (before_first b'"' (drop (at + length c.delim) value))
]
