-- ===== src/Tracker/Network/Ready.antt =====
-- The clients that have sent something and did not hang up.
use raiezau.Base.{
  ℕ, zero, suc, ◌≡◌, refl, true, false, none, some, List, [], ◌∷◌, ◌++◌, set, drop, if◌then◌else◌,
  Bool-cases, Option-cases, inl, inr,
}
use raiezau.Tracker.Network.Slots.{Slot, is_negative, has_flag, pollin, poll_gone}

-- The clients of the open slots that report data and no end of the connection, in the order of the
-- slots.
unfoldable pub ready : List Slot → List ℕ
ready [] = []
ready (x ∷ xs) =
    let later = ready xs in
    if is_negative x.fd then later else elim x.client [
      | none ↦ later
      | some c ↦
          if has_flag x.revents poll_gone
          then later
          else if has_flag x.revents pollin
          then c ∷ later
          else later
    ]

pub drop-set :
    {A : Type 0} (i : ℕ) (xs : List A) (v : A) → drop (suc i) (set xs i v) ≡ drop (suc i) xs
drop-set i [] v = refl
drop-set zero (x ∷ xs) v = refl
drop-set (suc i) (x ∷ xs) v = drop-set i xs v

module _ (x : Slot) (c : ℕ) (e : is_negative x.fd ≡ false) (at : x.client ≡ some c) where
  pub ready_gone : has_flag x.revents poll_gone ≡ true → ready (x ∷ []) ≡ []
  unfolding ready
  ready_gone gone = rw (ready, e, at, gone) refl

  module _ (stays : has_flag x.revents poll_gone ≡ false) where
    pub ready_one : has_flag x.revents pollin ≡ true → ready (x ∷ []) ≡ c ∷ []
    unfolding ready
    ready_one new = rw (ready, e, at, stays, new) refl

    pub ready_quiet : has_flag x.revents pollin ≡ false → ready (x ∷ []) ≡ []
    unfolding ready
    ready_quiet quiet = rw (ready, e, at, stays, quiet) refl

-- one slot after another
pub ready-cons : (x : Slot) (xs : List Slot) → ready (x ∷ xs) ≡ ready (x ∷ []) ++ ready xs
unfolding ready
ready-cons x xs = elim (Bool-cases (is_negative x.fd)) [
  | inl e ↦ rw e refl
  | inr e ↦ elim (Option-cases x.client) [
    | inl f ↦ rw (e, f) refl
    | inr (c, f) ↦ elim (Bool-cases (has_flag x.revents poll_gone)) [
      | inl gone ↦ rw (e, f, gone) refl
      | inr stays ↦ elim (Bool-cases (has_flag x.revents pollin)) [
        | inl new ↦ rw (e, f, stays, new) refl
        | inr quiet ↦ rw (e, f, stays, quiet) refl
      ]
    ]
  ]
]
