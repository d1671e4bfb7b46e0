-- ===== src/Tracker/File/Pieces.antt =====
-- The number of pieces that `file_new` computes.
use native.Mathlib.Nat.{mul-le-mul_right}
use raiezau.Base.{ℕ, ◌+◌, ◌*◌, ◌/◌, ◌%◌, ◌^◌, ◌≤◌, ◌<◌, ◌≡◌, arith, ◌==◌, if◌then◌else◌}
use raiezau.Base.Bytes.{Bytes}
use raiezau.Cutil.Uthash.{Uthash}
use raiezau.Tracker.File.{new_object}

count_pieces : ℕ → ℕ → ℕ
count_pieces length size = length / size + (if length % size == 0 then 0 else 1)

count_pieces_bounds :
    (l p : ℕ)
    → 0 < p
    → (l ≤ count_pieces l p * p) × (count_pieces l p * p < l + p) × (count_pieces l p ≤ l)
unfolding count_pieces
count_pieces_bounds l p h = grind (arith, mul-le-mul_right (l / p) h)

-- The number of pieces that `file_new` computes for a length of type `uint32_t` and a piece size
-- other than 0 covers the file, and one piece fewer would not.
pub piece_count_bounds :
    (u : Uthash ℕ) (name key : Bytes) (l p : ℕ)
    → 0 < p
    → l < 2 ^ 32
    → let x = new_object u name l p key in (l ≤ x.piece_count * p) × (x.piece_count * p < l + p)
unfolding new_object
piece_count_bounds u name key l p h lt =
    let (enough, least, small) = count_pieces_bounds l p h in
    let same : count_pieces l p % 2 ^ 32 ≡ count_pieces l p = omega arith in
    unfold count_pieces in rw same (enough, least)
