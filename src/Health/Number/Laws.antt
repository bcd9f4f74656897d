-- ===== src/Health/Number/Laws.antt =====
-- Reading a number: the checked loop against the unbounded value of the digits.
use vixy.Prelude.{
  ℕ, ◌+◌, ◌*◌, ◌≤◌, ◌<◌, ◌≡◌, ◌≢◌, ◌↔◌, ◌⊎◌, inl, inr, [], ◌∷◌, Option, none, some, Text, ok, arith,
  Option-cases, Bool-cases, ◌==◌, refl,
}
use vixy.Health.Number.{u64_mod, checked_mul, checked_add, to_digit, accumulate, from_str_radix}

-- The value of a list of digits behind the value `acc`, with no bound.
unfoldable pub value_from : ℕ → ℕ → Text → Option ℕ
value_from radix acc [] = some acc
value_from radix acc (c ∷ s) = elim (to_digit radix c) [
  | none ↦ none
  | some d ↦ value_from radix (acc * radix + d) s
]

value_from-le :
    (radix acc : ℕ) (s : Text) {v : ℕ} → 1 ≤ radix → value_from radix acc s ≡ some v → acc ≤ v
unfolding value_from
value_from-le radix acc [] r h = ground arith
value_from-le radix acc (c ∷ s) {v} r h = elim (Option-cases (to_digit radix c)) [
  | inl e ↦ absurd (ground arith)
  | inr (d, e) ↦
      let ih = value_from-le radix (acc * radix + d) s {v = v} r (ground arith) in grind arith
]

accumulate_iff :
    (radix acc : ℕ) (s : Text) (v : ℕ)
    → 1 ≤ radix
    → acc < u64_mod
    → (accumulate radix acc s ≡ ok v) ↔ ((value_from radix acc s ≡ some v) × (v < u64_mod))
unfolding accumulate value_from checked_mul checked_add
accumulate_iff radix acc [] v r b = ground arith
accumulate_iff radix acc (c ∷ s) v r b = elim (Option-cases (to_digit radix c)) [
  | inl e ↦ ground arith
  | inr (d, e) ↦ ground (
    arith,
    accumulate_iff radix (acc * radix + d) s v r,
    value_from-le radix (acc * radix + d) s {v = v} r,
  )
]

-- `s` is a number of value `v` in the radix: digits, perhaps behind a plus sign.
pub record Numeral (radix : ℕ) (s : Text) (v : ℕ) : Type 0 where
  pub digits : Text
  pub nonempty : digits ≢ []
  pub signed : (s ≡ digits) ⊎ (s ≡ b'+' ∷ digits)
  pub value : value_from radix 0 digits ≡ some v

-- A sign is no digit.
value_from-sign :
    (radix c : ℕ) (s : Text) → (c ≡ b'+') ⊎ (c ≡ b'-') → value_from radix 0 (c ∷ s) ≡ none
unfolding value_from to_digit
value_from-sign radix c s h = ground arith

read_plain :
    (radix : ℕ) (s : Text) (v : ℕ)
    → 1 ≤ radix
    → s ≢ []
    → value_from radix 0 s ≡ some v
    → v < u64_mod
    → from_str_radix radix s ≡ ok v
unfolding from_str_radix
read_plain radix [] v r n e b = absurd (n refl)
read_plain radix (c ∷ []) v r n e b =
    ground (arith, value_from-sign radix c [], accumulate_iff radix 0 (c ∷ []) v r (omega arith))
read_plain radix (c ∷ d ∷ s) v r n e b =
    ground
      (arith, value_from-sign radix c (d ∷ s), accumulate_iff radix 0 (c ∷ d ∷ s) v r (omega arith))

read_plus :
    (radix : ℕ) (s : Text) (v : ℕ)
    → 1 ≤ radix
    → s ≢ []
    → value_from radix 0 s ≡ some v
    → v < u64_mod
    → from_str_radix radix (b'+' ∷ s) ≡ ok v
unfolding from_str_radix
read_plus radix [] v r n e b = absurd (n refl)
read_plus radix (d ∷ s) v r n e b = (accumulate_iff radix 0 (d ∷ s) v r (omega arith)).1 (e, b)

read_sound :
    (radix : ℕ) (s : Text) (v : ℕ)
    → 1 ≤ radix
    → from_str_radix radix s ≡ ok v
    → Numeral radix s v × (v < u64_mod)
unfolding from_str_radix
read_sound radix [] v r e = ground arith
read_sound radix (c ∷ []) v r e =
    let (value, bound) = (accumulate_iff radix 0 (c ∷ []) v r (omega arith)).0 (ground arith) in
    (record { digits = c ∷ []; nonempty = ground arith; signed = inl refl; value = value }, bound)
read_sound radix (c ∷ d ∷ s) v r e = elim (Bool-cases (c == b'+')) [
  | inl plus ↦
      let (value, bound) = (accumulate_iff radix 0 (d ∷ s) v r (omega arith)).0 (ground arith) in
      (
        record {
          digits = d ∷ s;
          nonempty = ground arith;
          signed = inr (ground arith);
          value = value;
        },
        bound,
      )
  | inr other ↦
      let (value, bound) =
        (accumulate_iff radix 0 (c ∷ d ∷ s) v r (omega arith)).0 (ground arith) in
      (
        record { digits = c ∷ d ∷ s; nonempty = ground arith; signed = inl refl; value = value },
        bound,
      )
]

read_complete :
    (radix : ℕ) (s : Text) (v : ℕ)
    → 1 ≤ radix
    → Numeral radix s v
    → v < u64_mod
    → from_str_radix radix s ≡ ok v
read_complete radix s v r n b = elim n.signed [
  | inl e ↦ rw e (read_plain radix n.digits v r n.nonempty n.value b)
  | inr e ↦ rw e (read_plus radix n.digits v r n.nonempty n.value b)
]

-- A text reads as `v` exactly when it is a number of value `v` and `v` fits in 64 bits.
pub from_str_radix_iff :
    (radix : ℕ) (s : Text) (v : ℕ)
    → 1 ≤ radix
    → (from_str_radix radix s ≡ ok v) ↔ (Numeral radix s v × (v < u64_mod))
from_str_radix_iff radix s v r = (read_sound radix s v r, λ (n, b). read_complete radix s v r n b)
