-- ===== src/Tracker/Network/Holding.antt =====
-- The references that the slots of the poll arrays hold.
use raiezau.Base.{
  ℕ, ◌+◌, ◌≤◌, ◌<◌, ◌≡◌, ◌≢◌, refl, sym, ap, ◌∙◌, Bool, true, false, none, some, Option, ◌==◌,
  arith, length, get_elem?, set, Bool-cases, inl, inr, get_elem?-set_self, get_elem?-set_ne,
  length-set,
}
use raiezau.Tracker.Network.Holders.{one}
use raiezau.Tracker.Network.Round.{one_if, tally, hit-some, tally-set_below}
use raiezau.Tracker.Network.Slots.{Slot, Poll, is_closed}

-- The slot has the client.
unfoldable pub holds : ℕ → Slot → Bool
holds d x = elim x.client [ none ↦ false | some c ↦ c == d ]

-- How many of the slots in use have the client.
abbrev pub slot_refs : Poll → ℕ → ℕ
slot_refs p d = tally (holds d) p.nfds p.slots

-- The slots in use are within the arrays, and a closed one has no client.
pub record IsWell (p : Poll) : Type 0 where
  pub least : 1 ≤ p.nfds
  pub fits : p.nfds ≤ length p.slots
  pub empty :
      (i : ℕ) (x : Slot)
      → i < p.nfds
      → get_elem? p.slots i ≡ some x
      → is_closed x.fd ≡ true
      → x.client ≡ none

pub one_if-some : (x : Slot) (c d : ℕ) → x.client ≡ some c → one_if (holds d x) ≡ one c d
unfolding holds one_if
one_if-some x c d e = elim (Bool-cases (c == d)) [
  | inl f ↦ rw (holds, e, f) refl
  | inr f ↦ rw (holds, e, f) refl
]

pub one_if-none : (x : Slot) (d : ℕ) → x.client ≡ none → one_if (holds d x) ≡ 0
unfolding holds one_if
one_if-none x d e = rw (holds, e) refl

value : {A : Type 0} → A → Option A → A
value x none = x
value x (some y) = y

-- An option has one value.
pub same_value : {A : Type 0} {o : Option A} {x y : A} → o ≡ some x → o ≡ some y → x ≡ y
unfolding value
same_value {A} {o} {x} e f = ap (value x) (sym e ∙ f)

module _ (p : Poll) (i : ℕ) (x v : Slot) (well : IsWell p) (lt : i < p.nfds)
    (at : get_elem? p.slots i ≡ some x) where
  abbrev pub written : Poll
  written = record p { slots = set p.slots i v }

  written_refs :
      (d : ℕ) → slot_refs written d + one_if (holds d x) ≡ slot_refs p d + one_if (holds d v)
  written_refs d =
      let fits = well.fits in
      omega (
        arith,
        tally-set_below (holds d) p.slots i v p.nfds lt (omega arith),
        hit-some (holds d) p.slots i x at,
      )

  pub written_same : x.client ≡ v.client → (d : ℕ) → slot_refs written d ≡ slot_refs p d
  unfolding holds
  written_same e d =
      let same : one_if (holds d x) ≡ one_if (holds d v) = rw (holds, e) refl in
      omega (arith, written_refs d, same)

  pub written_less :
      (c d : ℕ)
      → x.client ≡ some c
      → v.client ≡ none
      → slot_refs p d ≡ one c d + slot_refs written d
  written_less c d e f = omega (arith, written_refs d, one_if-some x c d e, one_if-none v d f)

  pub written-IsWell : (is_closed v.fd ≡ true → v.client ≡ none) → IsWell written
  written-IsWell empty = record {
    least = well.least;
    fits = let fits = well.fits in omega (arith, length-set p.slots i v);
    empty = λ j y lt' at' closed. elim (Bool-cases (i == j)) [
      | inl e ↦
          let eq : i ≡ j = ground arith in
          let fits = well.fits in
          let put : get_elem? (set p.slots i v) i ≡ some v =
            get_elem?-set_self p.slots i v (omega arith) in
          let same : v ≡ y = same_value put (ap (get_elem? (set p.slots i v)) eq ∙ at') in
          ap (λ z. z.client) (sym same) ∙ empty (ap (λ z. is_closed z.fd) same ∙ closed)
      | inr e ↦
          let ne : i ≢ j = λ eq. ground arith in
          well.empty j y lt' (sym (get_elem?-set_ne p.slots i j v ne) ∙ at') closed
    ];
  }
