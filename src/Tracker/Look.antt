-- ===== src/Tracker/Look.antt =====
-- The criteria of a `look` request: lines 284 to 414 of tracker/protocol.c.
pub mod Size
pub mod Select
use raiezau.Base.{
  ℕ, zero, suc, ◌+◌, ◌^◌, Bool, true, false, not, Option, none, some, List, [], ◌∷◌, ◌++◌, ◌==◌,
  ltb, leb, if◌then◌else◌, length, get_elem?,
}
use raiezau.Base.Bytes.{Bytes, codes, str_eq}
use raiezau.Cutil.Text.{string_split, string_split2, strstripc, asprintf}
use raiezau.Cutil.Uthash.{Uthash}
use raiezau.Tracker.Env.{atol, decimal}
use raiezau.Tracker.File.{file_list}
use raiezau.Tracker.State.{File, State}

-- the operators that `DEFINE_CRITERION_PROCESSOR` is used for
pub data Operator : Type 0 where
  eq neq geq leq lt gt : Operator

-- the operator with the quote that opens the value
unfoldable pub text : Operator → Bytes
text eq = codes "=\""
text neq = codes "!=\""
text geq = codes ">=\""
text leq = codes "<=\""
text lt = codes "<\""
text gt = codes ">\""

-- a `uint64_t` and a `long`, which is converted: both are 64-bit patterns
unfoldable pub compare_size : Operator → ℕ → ℕ → Bool
compare_size eq size value = size == value
compare_size neq size value = not (size == value)
compare_size geq size value = leb value size
compare_size leq size value = leb size value
compare_size lt size value = ltb size value
compare_size gt size value = ltb value size

-- whether the processor has a branch for `filename`
unfoldable pub compare_name : Operator → Option (Bytes → Bytes → Bool)
compare_name eq = some (λ name value. str_eq value name)
compare_name neq = some (λ name value. not (str_eq value name))
compare_name _ = none

module _ (u : Uthash ℕ) where
  -- `PROCESS_LIST`: the files that pass are added in front of a new list, which replaces the old one
  unfoldable pub process_list : (files : List (File u)) → (File u → Bool) → List ℕ → List ℕ → List ℕ
  process_list files keep [] new_list = new_list
  process_list files keep (p ∷ l) new_list = process_list files keep l (elim (get_elem? files p) [
    | none ↦ new_list
    | some f ↦ if keep f then p ∷ new_list else new_list
  ])

  -- the two branches of a processor, once `field` and `value` are known
  unfoldable pub select : (files : List (File u)) → Operator → Bytes → Bytes → List ℕ → List ℕ
  unfolding compare_size compare_name process_list
  select files op field value l =
      let by_size = process_list files (λ f. compare_size op f.length (atol value)) l [] in
      let sized = if str_eq field (codes "filesize") then by_size else l in
      elim (compare_name op) [
        | none ↦ sized
        | some test ↦
            if str_eq field (codes "filename")
            then process_list files (λ f. test f.filename value) l []
            else sized
      ]

  -- `process_criterion_eq` and the like; `none` is the access in front of an empty value
  unfoldable pub process_criterion_op :
      (files : List (File u)) → Operator → Bytes → List ℕ → Option (List ℕ)
  unfolding text select
  process_criterion_op files op criterion l = elim (string_split2 criterion (text op)) [
    | [] ↦ some l
    | field ∷ [] ↦ some l
    | field ∷ value ∷ [] ↦ elim (strstripc value b'"') [
      | none ↦ none
      | some v ↦ some (select files op field v l)
    ]
    | field ∷ value ∷ more ∷ rest ↦ some l
  ]

  infixl 5 ◌>>=◌
  abbrev ◌>>=◌ : Option (List ℕ) → (List ℕ → Option (List ℕ)) → Option (List ℕ)
  none >>= f = none
  some l >>= f = f l

  unfoldable pub process_criterion : (files : List (File u)) → Bytes → List ℕ → Option (List ℕ)
  unfolding process_criterion_op
  process_criterion files criterion l = do
    l ← process_criterion_op files neq criterion l
    l ← process_criterion_op files geq criterion l
    l ← process_criterion_op files leq criterion l
    l ← process_criterion_op files eq criterion l
    l ← process_criterion_op files lt criterion l
    process_criterion_op files gt criterion l

  unfoldable pub process_criterions :
      (files : List (File u)) → List Bytes → List ℕ → Option (List ℕ)
  unfolding process_criterion
  process_criterions files [] l = some l
  process_criterions files (c ∷ criterions) l = do
    l ← process_criterion files c l
    process_criterions files criterions l

  unfoldable pub prot_look_process_criterions : State u → Bytes → Option (List ℕ)
  unfolding process_criterions file_list
  prot_look_process_criterions s criterions_str =
      process_criterions s.files (string_split criterions_str (codes " ")) (file_list u s)

  -- `"%s%s%s %lu %u %s"` of the text so far and a file
  unfoldable pub append_file : Bytes → Bytes → File u → Bytes
  unfolding asprintf decimal
  append_file tmp space f =
      (asprintf (
        tmp
        ++ (space
            ++ (f.filename
                ++ (codes " "
                    ++ (decimal f.length
                        ++ (codes " " ++ (decimal f.piece_size ++ (codes " " ++ f.md5_str))))))))).0

  build_loop : (files : List (File u)) → List ℕ → Bytes → Bytes → Bytes
  unfolding append_file
  build_loop files [] tmp space = tmp
  build_loop files (p ∷ l) tmp space =
      build_loop files l
        (elim (get_elem? files p) [ none ↦ tmp | some f ↦ append_file tmp space f ]) (codes " ")

  unfoldable pub prot_look_build_file_list : (files : List (File u)) → List ℕ → Bytes
  unfolding build_loop
  prot_look_build_file_list files l = build_loop files l [] []
