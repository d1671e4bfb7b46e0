-- ===== src/Tracker/Env.antt =====
-- What the tracker takes from its environment: the C library's decimal reading and printing and its
-- printed addresses, which are defined here, and POSIX regular expressions, which are a parameter.
use raiezau.Base.{
  ℕ, zero, suc, ◌+◌, ◌-◌, ◌*◌, ◌/◌, ◌%◌, ◌^◌, Bool, ◌&&◌, ◌||◌, Option, [], ◌∷◌, leb, ltb, ◌==◌,
  if◌then◌else◌,
}
use raiezau.Base.Bytes.{Bytes}

-- `isspace` in the C locale.
unfoldable pub isspace : ℕ → Bool
isspace c = c == 32 || leb 9 c && leb c 13

unfoldable pub skip_space : Bytes → Bytes
unfolding isspace
skip_space [] = []
skip_space (c ∷ s) = if isspace c then skip_space s else c ∷ s

is_digit : ℕ → Bool
is_digit c = leb b'0' c && leb c b'9'

-- the number that the leading digits spell behind `n`
unfoldable pub leading : ℕ → Bytes → ℕ
unfolding is_digit
leading n [] = n
leading n (c ∷ s) = if is_digit c then leading (n * 10 + (c - b'0')) s else n

clamp : ℕ → ℕ → ℕ
clamp bound n = if ltb bound n then bound else n

-- a sign and digits, as a 64-bit pattern: `strtol` stops at LONG_MIN and LONG_MAX
signed : Bytes → ℕ
unfolding leading clamp
signed [] = 0
signed (c ∷ s) =
    if c == b'-'
    then (2 ^ 64 - clamp (2 ^ 63) (leading 0 s)) % 2 ^ 64
    else if c == b'+'
    then clamp (2 ^ 63 - 1) (leading 0 s)
    else clamp (2 ^ 63 - 1) (leading 0 (c ∷ s))

-- `atol`, as the 64-bit pattern of the `long`.
unfoldable pub atol : Bytes → ℕ
unfolding signed skip_space
atol s = signed (skip_space s)

-- `atoi`, as the 32-bit pattern of the `int`.
unfoldable pub atoi : Bytes → ℕ
unfolding atol
atoi s = atol s % 2 ^ 32

digits : ℕ → ℕ → Bytes → Bytes
digits zero n out = out
digits (suc fuel) n out =
    let more = digits fuel (n / 10) ((b'0' + n % 10) ∷ out) in
    if ltb n 10 then (b'0' + n) ∷ out else more

-- `%u`, `%lu` and `%hu`: a number below 2 ^ 64 has 20 digits at most.
unfoldable pub decimal : ℕ → Bytes
unfolding digits
decimal n = digits 20 n []

-- `struct sockaddr_in`: the four bytes of the address in their order on the wire, and the port.
pub record SockAddr : Type 0 where
  pub a : ℕ
  pub b : ℕ
  pub c : ℕ
  pub d : ℕ
  pub port : ℕ

-- <regex.h>. `regexec` gives the offsets `pmatch[i].rm_so` and `pmatch[i].rm_eo` for each i.
pub record Posix : Type 1 where
  pub Regex : Type 0
  pub regcomp : Bytes → Option Regex
  pub regexec : Regex → Bytes → Option (ℕ → ℕ × ℕ)
