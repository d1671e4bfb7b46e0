-- ===== src/Tracker/Network/Polled.antt =====
-- What a new slot, `poll` and `clean_fds` do to the references that the slots hold.
use mathlib.Core.Path.{subst}
use raiezau.Base.{
  ℕ, zero, suc, ◌+◌, ◌*◌, ◌%◌, ◌^◌, ◌<◌, ◌≡◌, ◌≢◌, refl, sym, ap, ◌∙◌, Bool, true, false, none,
  some, List, [], ◌∷◌, ◌==◌, ltb, arith, length, get_elem?, set, Bool-cases, inl, inr,
  get_elem?-set_self, get_elem?-set_ne, length-set, get_elem?-of_lt,
}
use raiezau.Tracker.Network.Clean.{clean_fds-Swept}
use raiezau.Tracker.Network.Connect.{length-resize, get_elem?-resize}
use raiezau.Tracker.Network.Holding.{holds, slot_refs, IsWell, one_if-some, one_if-none, same_value}
use raiezau.Tracker.Network.Holders.{one}
use raiezau.Tracker.Network.Round.{
  one_if, hit, tally, hit-some, hit-set_self, tally-set_above, tally_alike, open_and,
}
use raiezau.Tracker.Network.Slots.{Slot, Poll, is_closed, resize, reserve, put_slot, clean_fds}

reserve_nfds : (junk : Slot) (p : Poll) → (reserve junk p).nfds ≡ p.nfds
unfolding reserve
reserve_nfds junk p = elim (Bool-cases (ltb p.fds_buffer_size (p.nfds + 1))) [
  | inl e ↦ rw (reserve, e) refl
  | inr e ↦ rw (reserve, e) refl
]

-- The arrays as they are before the write of a new slot.
reserve_kept :
    (junk : Slot) (p : Poll)
    → IsWell p
    → p.nfds < length (reserve junk p).slots
    → (i : ℕ) → i < p.nfds
    → get_elem? (reserve junk p).slots i ≡ get_elem? p.slots i
unfolding reserve
reserve_kept junk p well room i lt = elim (Bool-cases (ltb p.fds_buffer_size (p.nfds + 1))) [
  | inl e ↦
      let fits = well.fits in
      let n = p.fds_buffer_size * 2 % 2 ^ 32 in
      let wide : p.nfds < length (resize n junk p.slots) = rw (reserve, e) at room in
      let size = length-resize n junk p.slots in
      rw (reserve, e) (get_elem?-resize n junk p.slots i (omega arith) (omega arith))
  | inr e ↦ rw (reserve, e) refl
]

hit-same :
    (P : Slot → Bool) (xs ys : List Slot) (i : ℕ)
    → get_elem? ys i ≡ get_elem? xs i
    → hit P ys i ≡ hit P xs i
unfolding hit
hit-same P xs ys i e = rw (hit, e) refl

-- The poll arrays after the write.
module _ (x : Slot) (p g : Poll) (c : ℕ) (well : IsWell p) (has : x.client ≡ some c)
    (opened : is_closed x.fd ≡ false) (same : g.nfds ≡ p.nfds) (room : g.nfds < length g.slots)
    (kept : (i : ℕ) → i < p.nfds → get_elem? g.slots i ≡ get_elem? p.slots i) where
  abbrev grown : Poll
  grown = record g { slots = set g.slots g.nfds x; nfds = g.nfds + 1 }

  grown_refs : (d : ℕ) → slot_refs grown d ≡ one c d + slot_refs p d
  unfolding tally
  grown_refs d =
      let n : g.nfds + 1 ≡ suc g.nfds = omega arith in
      let split : slot_refs grown d ≡ tally (holds d) (suc g.nfds) grown.slots =
        ap (λ k. tally (holds d) k grown.slots) n in
      let old : tally (holds d) g.nfds g.slots ≡ tally (holds d) p.nfds p.slots =
        ap (λ k. tally (holds d) k g.slots) same
        ∙ tally_alike (holds d) (holds d) p.nfds g.slots p.slots
            (λ i lt. hit-same (holds d) p.slots g.slots i (kept i lt)) in
      omega (
        arith,
        split,
        old,
        tally-set_above (holds d) g.slots g.nfds x g.nfds (omega arith),
        hit-set_self (holds d) g.slots g.nfds x room,
        one_if-some x c d has,
      )

  grown-IsWell : IsWell grown
  grown-IsWell = record {
    least = omega arith;
    fits = omega (arith, length-set g.slots g.nfds x);
    empty = λ j y lt at closed. elim (Bool-cases (g.nfds == j)) [
      | inl e ↦
          let eq : g.nfds ≡ j = ground arith in
          let same_x : x ≡ y =
            same_value (get_elem?-set_self g.slots g.nfds x room)
              (ap (get_elem? (set g.slots g.nfds x)) eq ∙ at) in
          let not_closed : is_closed x.fd ≡ true = ap (λ z. is_closed z.fd) same_x ∙ closed in
          ground arith
      | inr e ↦
          let ne : g.nfds ≢ j = λ eq. ground arith in
          let lt' : j < p.nfds = omega arith in
          well.empty j y lt' (sym (kept j lt') ∙ sym (get_elem?-set_ne g.slots g.nfds j x ne) ∙ at)
            closed
    ];
  }

-- A new slot with a client.
pub put_slot_refs :
    (junk x : Slot) (p q : Poll) (c : ℕ)
    → IsWell p
    → x.client ≡ some c
    → is_closed x.fd ≡ false
    → put_slot x (reserve junk p) ≡ some q
    → IsWell q × ((d : ℕ) → slot_refs q d ≡ one c d + slot_refs p d)
unfolding put_slot
put_slot_refs junk x p q c well has opened h =
    let g = reserve junk p in
    elim (Bool-cases (ltb g.nfds (length g.slots))) [
      | inr e ↦ let no : none ≡ some q = rw (put_slot, e) at h in ground arith
      | inl e ↦
          let is : some (record g { slots = set g.slots g.nfds x; nfds = g.nfds + 1 }) ≡ some q =
            rw (put_slot, e) at h in
          let room : g.nfds < length g.slots = ground arith in
          let same = reserve_nfds junk p in
          let kept = reserve_kept junk p well (omega (arith, same)) in
          subst (λ q. IsWell q × ((d : ℕ) → slot_refs q d ≡ one c d + slot_refs p d))
            (same_value refl is)
            (
              grown-IsWell x p g c well has opened same room kept,
              grown_refs x p g c well has opened same room kept,
            )
    ]

-- A closed slot in use counts for no client.
open_refs :
    (p : Poll) (d : ℕ) → IsWell p → tally (open_and (holds d)) p.nfds p.slots ≡ slot_refs p d
unfolding hit one_if holds
open_refs p d well =
    let fits = well.fits in
    tally_alike (open_and (holds d)) (holds d) p.nfds p.slots p.slots (λ i lt.
      let (x, at) = get_elem?-of_lt p.slots i (omega arith) in
      elim (Bool-cases (is_closed x.fd)) [
        | inl e ↦
            let gone : x.client ≡ none = well.empty i x lt at e in
            hit-some (open_and (holds d)) p.slots i x at
            ∙ rw e refl
            ∙ sym (hit-some (holds d) p.slots i x at ∙ one_if-none x d gone)
        | inr e ↦
            hit-some (open_and (holds d)) p.slots i x at
            ∙ rw e refl
            ∙ sym (hit-some (holds d) p.slots i x at)
      ])

-- `clean_fds` moves slots, and each client keeps as many of them.
pub clean_fds_refs :
    (p : Poll)
    → IsWell p
    → IsWell (clean_fds p) × ((d : ℕ) → slot_refs (clean_fds p) d ≡ slot_refs p d)
clean_fds_refs p well =
    let s = clean_fds-Swept p well.least well.fits in
    let q = clean_fds p in
    let fits = well.fits in
    let well' : IsWell q = record {
      least = s.positive;
      fits = omega (arith, s.shrinks, s.room);
      empty = λ i x lt at closed. elim (Bool-cases (i == 0)) [
        | inl e ↦
            let first : i ≡ 0 = ground arith in
            let at' : get_elem? p.slots 0 ≡ some x =
              sym s.listener ∙ ap (get_elem? q.slots) (sym first) ∙ at in
            well.empty 0 x (let least = well.least in omega arith) at' closed
        | inr e ↦
            let (y, at', o) = s.opened i (ground arith) lt in
            let same : x ≡ y = same_value at at' in
            let no : is_closed x.fd ≡ false = ap (λ z. is_closed z.fd) same ∙ o in ground arith
      ];
    } in
    (well', λ d. sym (open_refs q d well') ∙ s.counts (holds d) ∙ open_refs p d well)

-- What `poll` reports of each slot.
unfoldable pub report_from : (ℕ → ℕ) → ℕ → List Slot → List Slot
report_from revents i [] = []
report_from revents i (x ∷ xs) = record x { revents = revents i } ∷ report_from revents (suc i) xs

-- `poll`
unfoldable pub report : (ℕ → ℕ) → Poll → Poll
unfolding report_from
report revents p = record p { slots = report_from revents 0 p.slots }

report_at :
    (revents : ℕ → ℕ) (k : ℕ) (xs : List Slot) (i : ℕ) {y : Slot}
    → get_elem? (report_from revents k xs) i ≡ some y
    → (x : Slot) × (get_elem? xs i ≡ some x) × (x.client ≡ y.client) × (x.fd ≡ y.fd)
unfolding report_from
report_at revents k [] i e = ground arith
report_at revents k (x ∷ xs) zero e =
    let same = same_value refl e in (x, refl, ap (λ z. z.client) same, ap (λ z. z.fd) same)
report_at revents k (x ∷ xs) (suc i) e = report_at revents (suc k) xs i e

length-report :
    (revents : ℕ → ℕ) (k : ℕ) (xs : List Slot) → length (report_from revents k xs) ≡ length xs
unfolding report_from
length-report revents k [] = refl
length-report revents k (x ∷ xs) = ap suc (length-report revents (suc k) xs)

report_hit :
    (revents : ℕ → ℕ) (d k : ℕ) (xs : List Slot) (i : ℕ)
    → hit (holds d) (report_from revents k xs) i ≡ hit (holds d) xs i
unfolding report_from hit holds
report_hit revents d k [] i = refl
report_hit revents d k (x ∷ xs) zero = refl
report_hit revents d k (x ∷ xs) (suc i) = report_hit revents d (suc k) xs i

pub report_refs :
    (revents : ℕ → ℕ) (p : Poll)
    → IsWell p
    → IsWell (report revents p) × ((d : ℕ) → slot_refs (report revents p) d ≡ slot_refs p d)
unfolding report
report_refs revents p well =
    let fits = well.fits in
    (
      record {
        least = well.least;
        fits = omega (arith, length-report revents 0 p.slots);
        empty = λ i y lt at closed.
            let (x, at', client, fd) = report_at revents 0 p.slots i at in
            sym client ∙ well.empty i x lt at' (ap is_closed fd ∙ closed);
      },
      λ d.
          tally_alike (holds d) (holds d) p.nfds _ p.slots
            (λ i lt. report_hit revents d 0 p.slots i),
    )
