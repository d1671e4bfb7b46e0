-- ===== src/TrackerCpp/Criterion/Selecting.antt =====
-- The words of a `look` and the files that they select.
use mathlib.Core.Path.{subst}
use raiezau.Base.{
  ℕ, zero, suc, ◌≡◌, refl, ap, ◌∙◌, Bool, true, false, not, ◌&&◌, Option, none, some, List, [], ◌∷◌,
  ◌++◌, ◌==◌, arith, if◌then◌else◌, get_elem?, ◌<◌, length, All, get_elem?-of_lt,
}
use raiezau.Base.Bytes.{Bytes, codes}
use raiezau.TrackerCpp.CircularBuffer.Search.{has}
use raiezau.TrackerCpp.Criterion.{Criterion, eqi, xor, quoted, criterions, matches}
use raiezau.TrackerCpp.Criterion.Matching.{
  fits, start, differ, matches_lem, argument_lem, starts_with_self, starts_with-differ,
}
use raiezau.TrackerCpp.FileMgr.{File}
use raiezau.TrackerCpp.Peer.{Server, returns, load_file}
use raiezau.TrackerCpp.Peer.Follows.{>>=-returns, load_file_lem}
use raiezau.TrackerCpp.Peer.Requests.{keep_files, apply_criterion, parse_criterion}
use raiezau.TrackerCpp.Text.{stoul}

-- All criteria of a list begin in other ways than this one, and each fits.
clear_of : Criterion → List Criterion → Bool
unfolding differ
clear_of c [] = true
clear_of c (e ∷ cs) = differ (start c) (start e) && clear_of c cs

apart : List Criterion → Bool
unfolding clear_of fits
apart [] = true
apart (c ∷ cs) = fits c && (clear_of c cs && apart cs)

the : Criterion → Option Criterion → Criterion
the c none = c
the c (some e) = e

clear_of-get :
    (c e : Criterion) (cs : List Criterion) (i : ℕ)
    → clear_of c cs ≡ true
    → get_elem? cs i ≡ some e
    → differ (start c) (start e) ≡ true
unfolding clear_of the
clear_of-get c e [] i h at = ground arith
clear_of-get c e (b ∷ cs) zero h at =
    let same : differ (start c) (start b) ≡ true = ground arith in
    subst (λ x. differ (start c) (start x) ≡ true) (ap (the c) at) same
clear_of-get c e (b ∷ cs) (suc i) h at = clear_of-get c e cs i (ground arith) at

first_match :
    (cs : List Criterion) (i : ℕ) (c : Criterion) (rest : Bytes) (files : List ℕ)
    → apart cs ≡ true
    → get_elem? cs i ≡ some c
    → (fits c ≡ true)
      × (parse_criterion cs (start c ++ rest) files ≡ apply_criterion c (start c ++ rest) files)
unfolding parse_criterion apart the
first_match [] i c rest files h at = ground arith
first_match (e ∷ cs) zero c rest files h at =
    let fit : fits e ≡ true = ground arith in
    let found : matches e (start e ++ rest) ≡ true =
      matches_lem e (start e ++ rest) fit ∙ starts_with_self (start e) rest in
    subst
      (λ x.
        (fits x ≡ true)
        × (parse_criterion (e ∷ cs) (start x ++ rest) files
            ≡ apply_criterion x (start x ++ rest) files))
      (ap (the e) at) (fit, rw (parse_criterion, found) refl)
first_match (e ∷ cs) (suc i) c rest files h at =
    let fit : fits e ≡ true = ground arith in
    let clear : clear_of e cs ≡ true = ground arith in
    let missed : matches e (start c ++ rest) ≡ false =
      matches_lem e (start c ++ rest) fit
      ∙ starts_with-differ (start e) (start c) rest (clear_of-get e c cs i clear at) in
    let (fit', later) = first_match cs i c rest files (ground arith) at in
    (fit', rw (parse_criterion, missed) later)

criterions-apart : apart criterions ≡ true
unfolding apart criterions has
criterions-apart = refl

-- A word that is a criterion's keyword, its operator, and a value in quotes is read by this criterion
-- and no other, whatever stands behind the closing quote, and the predicate gets the value.
pub parse_criterion_lem :
    (i : ℕ) (c : Criterion) (v junk : Bytes) (files : List ℕ)
    → get_elem? criterions i ≡ some c
    → has b'"' v ≡ false
    → parse_criterion criterions (start c ++ (v ++ b'"' ∷ junk)) files
      ≡ keep_files c.predicate v files
unfolding apply_criterion
parse_criterion_lem i c v junk files at clear =
    let (fit, first) = first_match criterions i c (v ++ b'"' ∷ junk) files criterions-apart at in
    first ∙ rw (apply_criterion, argument_lem c v junk fit clear) refl

-- The files for which a test holds.
unfoldable pub chosen : (File → Bool) → Server → List ℕ → List ℕ
chosen test s [] = []
chosen test s (f ∷ files) =
    let later = chosen test s files in
    elim (get_elem? s.files.files f) [ none ↦ later | some x ↦ if test x then f ∷ later else later ]

-- The files of the list exist.
abbrev pub AllKnown : Server → List ℕ → Type 0
AllKnown s files = All (λ f. f < length s.files.files) files

keep_lem :
    (predicate : File → Bytes → Option Bool) (v : Bytes) (test : File → Bool) (files : List ℕ)
    (s : Server)
    → ((x : File) → predicate x v ≡ some (test x))
    → AllKnown s files
    → keep_files predicate v files s ≡ some (returns (chosen test s files), s)
unfolding keep_files chosen load_file
keep_lem predicate v test [] s h known = refl
keep_lem predicate v test (f ∷ files) s h (here, known) =
    let (x, at) = get_elem?-of_lt s.files.files f here in
    let known' : AllKnown s files = known in
    let later : keep_files predicate v files s ≡ some (returns (chosen test s files), s) =
      keep_lem predicate v test files s h known' in
    >>=-returns (load_file f) _ s (load_file_lem f s at)
    ∙ rw (h x) (>>=-returns (keep_files predicate v files) _ s later ∙ rw (chosen, at) refl)

xor-true : (b : Bool) → xor b true ≡ not b
unfolding xor
xor-true true = refl
xor-true false = refl

xor-false : (b : Bool) → xor b false ≡ b
unfolding xor
xor-false true = refl
xor-false false = refl

size_criterion : Bytes → Bool → Criterion
unfolding eqi
size_criterion op reversed = record {
  delim = quoted op;
  keyword = codes "filesize";
  predicate = eqi (λ f. f.file_size) reversed;
}

-- Of the files of a set `filesize="n"` keeps those whose size is not n, and `filesize!="n"` those whose
-- size is n, for any text that `stoul` reads as n.
pub equality_swapped :
    (v : Bytes) (n : ℕ) (files : List ℕ) (s : Server)
    → stoul v ≡ some n
    → has b'"' v ≡ false
    → AllKnown s files
    → (parse_criterion criterions (codes "filesize=" ++ (b'"' ∷ v ++ b'"' ∷ [])) files s
        ≡ some (returns (chosen (λ x. not (n == x.file_size)) s files), s))
      × (parse_criterion criterions (codes "filesize!=" ++ (b'"' ∷ v ++ b'"' ∷ [])) files s
          ≡ some (returns (chosen (λ x. n == x.file_size) s files), s))
unfolding criterions eqi xor size_criterion
equality_swapped v n files s parses clear known = (
  ap (λ a. a s) (parse_criterion_lem 0 (size_criterion (codes "=") true) v [] files refl clear)
      ∙ keep_lem (eqi (λ f. f.file_size) true) v (λ x. not (n == x.file_size)) files s
          (λ x. rw (eqi, parses) (ap some (xor-true (n == x.file_size)))) known,
  ap (λ a. a s) (parse_criterion_lem 1 (size_criterion (codes "!=") false) v [] files refl clear)
      ∙ keep_lem (eqi (λ f. f.file_size) false) v (λ x. n == x.file_size) files s
          (λ x. rw (eqi, parses) (ap some (xor-false (n == x.file_size)))) known,
)
