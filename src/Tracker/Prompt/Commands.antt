-- ===== src/Tracker/Prompt/Commands.antt =====
-- What the prompt does with a line.
use mathlib.Core.Path.{subst}
use raiezau.Base.{
  ℕ, ◌≡◌, ◌≢◌, refl, sym, ◌∙◌, ap, true, false, some, List, [], ◌∷◌, ◌==◌, arith, Bool-cases, inl,
  inr, ◌⊎◌, All, ==_iff,
}
use raiezau.Base.Bytes.{Bytes, codes}
use raiezau.Cutil.Text.{character_is_in_string, string_split}
use raiezau.Cutil.Text.Tokens.{keep, concat, string_split_sound, IsToken}
use raiezau.Cutil.Uthash.{Uthash}
use raiezau.Tracker.Prompt.{shell, isblank, is_white, dispatch, eval}
use raiezau.Tracker.State.{State}

-- What is not white is more than spaces.
keep-white : (str : Bytes) → is_white str ≡ false → keep (codes " ") str ≢ []
unfolding is_white isblank keep character_is_in_string
keep-white [] h = ground arith
keep-white (c ∷ str) h = ground (arith, keep-white str)

-- A line that is not white has a first word.
first_word : (str : Bytes) → is_white str ≡ false → string_split str (codes " ") ≢ []
unfolding concat
first_word str h e =
    keep-white str h (sym (string_split_sound (codes " ") str).1 ∙ ap (concat (codes " ")) e)

-- the cases of a command
module _ (u : Uthash ℕ) (s : State u) where
  -- A line that is not white is a command: what follows a `!` in its first place goes to the shell,
  -- and any other line has a first word, which is not empty and holds no space, so that `command[0]`
  -- is a word whenever `eval` reads it.
  pub eval_lem :
      (command : Bytes)
      → is_white command ≡ false
      → ((rest : Bytes) × (command ≡ b'!' ∷ rest) × (eval u s command ≡ some (shell rest)))
        ⊎ ((name : Bytes) × (words : List Bytes) × (string_split command (codes " ") ≡ name ∷ words)
            × IsToken (codes " ") name
            × (eval u s command ≡ dispatch u s name (name ∷ words)))
  unfolding eval is_white
  eval_lem [] h = ground arith
  eval_lem (c ∷ rest) h = split (Bool-cases (c == b'!')) (string_split (c ∷ rest) (codes " ")) refl
    where
      split :
          (c == b'!' ≡ true) ⊎ (c == b'!' ≡ false)
          → (pieces : List Bytes) → string_split (c ∷ rest) (codes " ") ≡ pieces
          → ((tail : Bytes) × (c ∷ rest ≡ b'!' ∷ tail) × (eval u s (c ∷ rest) ≡ some (shell tail)))
            ⊎ ((name : Bytes) × (words : List Bytes) × (string_split (c ∷ rest) (codes " ")
                  ≡ name ∷ words)
                × IsToken (codes " ") name
                × (eval u s (c ∷ rest) ≡ dispatch u s name (name ∷ words)))
      split (inl e) pieces p = inl (rest, ap (λ d. d ∷ rest) ((==_iff c b'!').0 e), rw e refl)
      split (inr e) [] p = absurd (first_word (c ∷ rest) h p)
      split (inr e) (name ∷ words) p =
          let tokens : All (IsToken (codes " ")) (name ∷ words) =
            subst (All (IsToken (codes " "))) p (string_split_sound (codes " ") (c ∷ rest)).0 in
          inr (name, words, p, tokens.0, rw (e, p) refl)
