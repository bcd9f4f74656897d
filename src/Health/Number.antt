-- ===== src/Health/Number.antt =====
-- `u64::from_str_radix` and `str::parse::<u64>` of Rust's standard library, which health/el.rs and
-- health/cl.rs read block and slot numbers with: an optional `+`, then digits, with every step
-- checked for overflow.
pub mod Laws
use vixy.Prelude.{
  ℕ, ◌+◌, ◌-◌, ◌*◌, ◌^◌, ltb, leb, ◌==◌, Bool, ◌&&◌, ◌||◌, List, [], ◌∷◌, Option, none, some, Text,
  Result, ok, err, ok_or, ◌>>=◌, if◌then◌else◌,
}

pub data ParseIntError : Type 0 where
  empty invalid_digit pos_overflow : ParseIntError

abbrev pub u64_mod : ℕ
u64_mod = 2 ^ 64

-- `u64::checked_mul` and `u64::checked_add`
unfoldable pub checked_mul : ℕ → ℕ → Option ℕ
checked_mul a b = if ltb (a * b) u64_mod then some (a * b) else none

unfoldable pub checked_add : ℕ → ℕ → Option ℕ
checked_add a b = if ltb (a + b) u64_mod then some (a + b) else none

abbrev below : ℕ → ℕ → Option ℕ
below radix d = if ltb d radix then some d else none

-- `char::to_digit`, for a radix of at most 36
unfoldable pub to_digit : ℕ → ℕ → Option ℕ
to_digit radix c =
    if leb b'0' c && leb c b'9'
    then below radix (c - b'0')
    else if leb b'a' c && leb c b'z'
    then below radix (c - b'a' + 10)
    else if leb b'A' c && leb c b'Z'
    then below radix (c - b'A' + 10)
    else none

unfoldable pub accumulate : ℕ → ℕ → Text → Result ParseIntError ℕ
accumulate radix acc [] = ok acc
accumulate radix acc (c ∷ s) = do
  digit ← ok_or (to_digit radix c) invalid_digit
  shifted ← ok_or (checked_mul acc radix) pos_overflow
  next ← ok_or (checked_add shifted digit) pos_overflow
  accumulate radix next s

-- A sign alone is no number.
unfoldable pub from_str_radix : ℕ → Text → Result ParseIntError ℕ
from_str_radix radix [] = err empty
from_str_radix radix (c ∷ []) =
    if c == b'+' || c == b'-' then err invalid_digit else accumulate radix 0 (c ∷ [])
from_str_radix radix (c ∷ d ∷ s) =
    if c == b'+' then accumulate radix 0 (d ∷ s) else accumulate radix 0 (c ∷ d ∷ s)
