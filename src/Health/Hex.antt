-- ===== src/Health/Hex.antt =====
-- Block numbers in health/el.rs: what `parse_hex_block_number` accepts, and what a check returns.
use vixy.Prelude.{
  ℕ, ◌+◌, ◌-◌, ok_or->>=, map_err-ok, ◌*◌, ◌<◌, ◌≡◌, ◌≢◌, ◌↔◌, ◌⊎◌, inl, inr, List, [], ◌∷◌, ◌++◌,
  map, All, Option, none, some, Text, bytes, strip_prefix, strip_prefix-append, strip_prefix_sound,
  false, ltb, if◌then◌else◌, arith, ok, Option-cases, refl, is_empty, Result, ◌>>=◌,
}
use vixy.Health.Number.{u64_mod, to_digit}
use vixy.Health.Number.Laws.{Numeral, value_from, from_str_radix_iff}
use vixy.Health.Net.{Net, Reply, JsonRpcResponse, JsonRpcError}
use vixy.Health.El.{
  no_error, CheckError, parse_hex_block_number, block_number_request, check_el_node,
}

-- `hex` is a hexadecimal number of value `v`, perhaps behind `0x`.
pub record HexNumeral (hex : Text) (v : ℕ) : Type 0 where
  pub body : Text
  pub prefixed : (hex ≡ body) ⊎ (hex ≡ bytes "0x" ++ body)
  pub numeral : Numeral 16 body v
  pub fits : v < u64_mod

Numeral-ne_nil : {radix v : ℕ} (s : Text) → Numeral radix s v → is_empty s ≡ false
Numeral-ne_nil [] n = ground arith
Numeral-ne_nil (c ∷ s) n = refl

-- The `x` of a prefix is no digit, so a number does not begin with `0x`.
value_from-prefix : (s : Text) → value_from 16 0 (bytes "0x" ++ s) ≡ none
unfolding value_from to_digit
value_from-prefix s = refl

Numeral-no_prefix : {v : ℕ} (s : Text) → Numeral 16 s v → strip_prefix (bytes "0x") s ≡ none
Numeral-no_prefix s n = elim (Option-cases (strip_prefix (bytes "0x") s)) [
  | inl miss ↦ miss
  | inr (r, hit) ↦
      absurd (ground (arith, strip_prefix_sound (bytes "0x") s hit, value_from-prefix r))
]

parse_sound : (hex : Text) (v : ℕ) → parse_hex_block_number hex ≡ ok v → HexNumeral hex v
unfolding parse_hex_block_number
parse_sound hex v e = elim (Option-cases (strip_prefix (bytes "0x") hex)) [
  | inl miss ↦
      let (n, b) = (from_str_radix_iff 16 hex v (omega arith)).0 (ground arith) in
      record { body = hex; prefixed = inl refl; numeral = n; fits = b }
  | inr (r, hit) ↦
      let (n, b) = (from_str_radix_iff 16 r v (omega arith)).0 (ground arith) in
      record {
        body = r;
        prefixed = inr (strip_prefix_sound (bytes "0x") hex hit);
        numeral = n;
        fits = b;
      }
]

parse_complete : (hex : Text) (v : ℕ) → HexNumeral hex v → parse_hex_block_number hex ≡ ok v
unfolding parse_hex_block_number
parse_complete hex v h = elim h.prefixed [
  | inl e ↦
      let n : Numeral 16 hex v = rw e h.numeral in
      ground (
        arith,
        Numeral-no_prefix hex n,
        Numeral-ne_nil hex n,
        (from_str_radix_iff 16 hex v (omega arith)).1 (n, h.fits),
      )
  | inr e ↦ ground (
    arith,
    strip_prefix-append (bytes "0x") h.body,
    Numeral-ne_nil h.body h.numeral,
    (from_str_radix_iff 16 h.body v (omega arith)).1 (h.numeral, h.fits),
  )
]

-- A text is accepted with the value `v` exactly when it is a hexadecimal number of that value,
-- with or without `0x`, and the value fits in 64 bits.
parse_hex_block_number_iff :
    (hex : Text) (v : ℕ) → (parse_hex_block_number hex ≡ ok v) ↔ HexNumeral hex v
parse_hex_block_number_iff hex v = (parse_sound hex v, parse_complete hex v)

-- What the node at `url` must answer on a visit to be given block number `b`.
pub record Answers (net : Net) (visit : ℕ) (url : Text) (b : ℕ) : Type 0 where
  pub reply : Reply JsonRpcResponse
  pub response : JsonRpcResponse
  pub result : Text
  pub replied : net.post visit url block_number_request ≡ some reply
  pub decoded : reply.json ≡ some response
  pub no_error : response.error ≡ none
  pub has_result : response.result ≡ some result
  pub number : HexNumeral result b

no_error-ok {ℓ} :
    {B : Type ℓ} (o : Option JsonRpcError) (k : Result CheckError B) {b : B}
    → (no_error o >>= λ _. k) ≡ ok b
    → (o ≡ none) × (k ≡ ok b)
no_error-ok none k h = (refl, h)
no_error-ok (some e) k h = cc

check_sound :
    (net : Net) (visit : ℕ) (url : Text) (b : ℕ)
    → check_el_node net visit url ≡ ok b
    → Answers net visit url b
unfolding check_el_node
check_sound net visit url b h =
    let (reply, replied, h₁) = ok_or->>= (net.post visit url block_number_request) _ _ h in
    let (response, decoded, h₂) = ok_or->>= reply.json _ _ h₁ in
    let (clean, h₃) = no_error-ok response.error _ h₂ in
    let (result, found, h₄) = ok_or->>= response.result _ _ h₃ in
    record {
      reply = reply;
      response = response;
      result = result;
      replied = replied;
      decoded = decoded;
      no_error = clean;
      has_result = found;
      number = parse_sound result b (map_err-ok _ _ h₄);
    }

check_complete :
    (net : Net) (visit : ℕ) (url : Text) (b : ℕ)
    → Answers net visit url b
    → check_el_node net visit url ≡ ok b
unfolding check_el_node
check_complete net visit url b a = ground (arith, parse_complete a.result b a.number)

-- A check of an EL node succeeds with block number `b` exactly when the node answers, its answer
-- decodes, carries no error, and has a hexadecimal number of value `b` below 2^64 as result.
pub check_el_node_iff :
    (net : Net) (visit : ℕ) (url : Text) (b : ℕ)
    → (check_el_node net visit url ≡ ok b) ↔ Answers net visit url b
check_el_node_iff net visit url b = (check_sound net visit url b, check_complete net visit url b)

abbrev pub hex_char : ℕ → ℕ
hex_char d = if ltb d 10 then d + b'0' else d - 10 + b'a'

abbrev pub value_of : ℕ → List ℕ → ℕ
value_of acc [] = acc
value_of acc (d ∷ ds) = value_of (acc * 16 + d) ds

to_digit-hex_char : (d : ℕ) → d < 16 → to_digit 16 (hex_char d) ≡ some d
unfolding to_digit
to_digit-hex_char d h = ground arith

value_from-hex_char :
    (acc : ℕ) (ds : List ℕ)
    → All (λ d. d < 16) ds
    → value_from 16 acc (map hex_char ds) ≡ some (value_of acc ds)
unfolding value_from
value_from-hex_char acc [] h = refl
value_from-hex_char acc (d ∷ ds) h =
    rw (to_digit-hex_char d h.0, value_from) (value_from-hex_char (acc * 16 + d) ds h.1)

-- Printing digits behind `0x` and parsing them gives back their value, if it fits in 64 bits.
pub parse_hex_block_number-print :
    (ds : List ℕ)
    → ds ≢ []
    → All (λ d. d < 16) ds
    → value_of 0 ds < u64_mod
    → parse_hex_block_number (bytes "0x" ++ map hex_char ds) ≡ ok (value_of 0 ds)
parse_hex_block_number-print [] n h b = absurd (n refl)
parse_hex_block_number-print (d ∷ ds) n h b = parse_complete _ _ (record {
  body = map hex_char (d ∷ ds);
  prefixed = inr refl;
  numeral = record {
    digits = map hex_char (d ∷ ds);
    nonempty = λ e. cc;
    signed = inl refl;
    value = value_from-hex_char 0 (d ∷ ds) h;
  };
  fits = b;
})
