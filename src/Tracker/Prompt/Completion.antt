-- ===== src/Tracker/Prompt/Completion.antt =====
-- The completions that `my_generator` offers, call after call.
use raiezau.Base.{
  ℕ, zero, suc, ◌+◌, ◌≤◌, ◌≡◌, refl, ap, ◌∙◌, Bool, true, false, Option, none, some, List, [], ◌∷◌,
  arith, length, drop, if◌then◌else◌, Bool-cases, inl, inr, ◌⊎◌,
}
use raiezau.Base.Bytes.{Bytes}
use raiezau.Base.Index.{drop-suc}
use raiezau.Tracker.Prompt.{cmd, is_prefix, generator_loop, my_generator}

-- The rest of the calls is wanted only after a name.
unfoldable pub then_calls : Option Bytes × ℕ → (ℕ → Option (List Bytes)) → Option (List Bytes)
then_calls (none, i) rest = some []
then_calls (some name, i) rest = elim (rest i) [ none ↦ none | some names ↦ some (name ∷ names) ]

-- What the calls of `my_generator` return until one returns NULL, in `k` calls at most; the first
-- call has `state` 0 if `fresh` says so, the others have not. `none`: the calls did not end.
unfoldable pub completions : ℕ → Bytes → (fresh : Bool) → ℕ → Option (List Bytes)
unfolding then_calls
completions zero text fresh list_index = none
completions (suc k) text fresh list_index =
    then_calls (my_generator text fresh list_index) (λ i. completions k text false i)

-- The names that begin with the text.
unfoldable pub matching : Bytes → List Bytes → List Bytes
matching text [] = []
matching text (name ∷ names) =
    if is_prefix text name then name ∷ matching text names else matching text names

-- what follows a call
after : ℕ → Bytes → Option Bytes × ℕ → Option (List Bytes)
unfolding then_calls completions
after k text call = then_calls call (λ i. completions k text false i)

completions-after :
    (k : ℕ) (text : Bytes) (fresh : Bool) (i : ℕ)
    → completions (suc k) text fresh i ≡ after k text (my_generator text fresh i)
completions-after k text fresh i = unfold completions after in refl

drop_tail :
    (i : ℕ) (table : List Bytes) {name : Bytes} {names : List Bytes}
    → drop i table ≡ name ∷ names
    → drop (i + 1) table ≡ names
drop_tail i table e =
    let next : i + 1 ≡ suc i = omega arith in ap (λ k. drop k table) next ∙ (drop-suc i table e).1

hit :
    (k i : ℕ) (text name : Bytes) (names : List Bytes)
    → completions k text false i ≡ some names
    → after k text (some name, i) ≡ some (name ∷ names)
hit k i text name names e = unfold after then_calls in rw (after, then_calls, e) refl

module _ (text : Bytes) where
  loop_lem :
      (names : List Bytes) (k i : ℕ)
      → drop i cmd ≡ names
      → length names ≤ k
      → after k text (generator_loop text names i) ≡ some (matching text names)
  loop_lem [] k i e h = unfold after then_calls generator_loop matching in refl
  loop_lem (name ∷ names) zero i e h = absurd (omega arith)
  loop_lem (name ∷ names) (suc k) i e h =
      let tail = drop_tail i cmd e in
      step (Bool-cases (is_prefix text name)) (loop_lem names (suc k) (i + 1) tail (omega arith))
        (loop_lem names k (i + 1) tail (omega arith)) tail
    where
      step :
          (is_prefix text name ≡ true) ⊎ (is_prefix text name ≡ false)
          → after (suc k) text (generator_loop text names (i + 1)) ≡ some (matching text names)
          → after k text (generator_loop text names (i + 1)) ≡ some (matching text names)
          → drop (i + 1) cmd ≡ names
          → after (suc k) text (generator_loop text (name ∷ names) i)
            ≡ some (matching text (name ∷ names))
      step (inl p) skip next tail =
          let call : my_generator text false (i + 1) ≡ generator_loop text names (i + 1) =
            unfold my_generator in ap (λ t. generator_loop text t (i + 1)) tail in
          let later = completions-after k text false (i + 1) ∙ ap (after k text) call ∙ next in
          unfold generator_loop matching in
          rw (generator_loop, p, matching)
            (hit (suc k) (i + 1) text name (matching text names) later)
      step (inr p) skip next tail =
          unfold generator_loop matching in rw (generator_loop, p, matching) skip

-- For every text, the calls of `my_generator` that begin with one of `state` 0 return the commands
-- that begin with the text, each once and in the table's order, and then NULL, whatever the static
-- index was before: they end after nine calls at most.
pub completions_lem :
    (text : Bytes) (list_index : ℕ) → completions 9 text true list_index ≡ some (matching text cmd)
unfolding my_generator generator_loop
completions_lem text list_index =
    completions-after 8 text true list_index
    ∙ loop_lem text cmd 8 0 refl (unfold cmd in omega arith)
