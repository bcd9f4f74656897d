-- ===== src/Ws/Json.antt =====
-- What proxy/ws.rs uses of the JSON library: a value type, a decoder and an encoder, and objects.
use vixy.Prelude.{ℕ, ◌+◌, ◌<◌, ◌≡◌, All, List, Option, some, Text, text_eq, if◌then◌else◌}

pub record Json : Type 1 where
  pub Value : Type 0
  -- an object's members
  pub Members : Type 0
  pub from_str : Text → Option Value
  pub to_string : Value → Text
  pub get : Text → Value → Option Value
  pub as_str : Value → Option Text
  pub as_array : Value → Option (List Value)
  pub as_object : Value → Option Members
  -- `from_str` and `to_string` at the type of objects
  pub members_from_str : Text → Option Members
  pub members_to_string : Members → Option Text
  pub no_members : Members
  pub member : Text → Members → Option Value
  pub put : Text → Value → Members → Members
  pub object : Members → Value
  pub string : Text → Value
  pub array : List Value → Value

-- What the library documents. A value is read back as it was written if it has no floating-point
-- number, which may change in its last digit, and if its arrays and objects nest less than 128 deep,
-- the limit of the decoder. `Readable n` are the values without such numbers that nest `n` deep at
-- most, and `MembersReadable n` the members that have such values.
pub record JsonLaws (j : Json) : Type 1 where
  pub Readable : ℕ → j.Value → Type 0
  pub MembersReadable : ℕ → j.Members → Type 0
  pub from_str-to_string :
      (n : ℕ) (v : j.Value) → n < 128 → Readable n v → j.from_str (j.to_string v) ≡ some v
  pub string-Readable : (n : ℕ) (t : Text) → Readable n (j.string t)
  pub array-Readable :
      (n : ℕ) (vs : List j.Value) → All (Readable n) vs → Readable (n + 1) (j.array vs)
  pub object-Readable :
      (n : ℕ) (m : j.Members) → MembersReadable n m → Readable (n + 1) (j.object m)
  pub no_members-Readable : (n : ℕ) → MembersReadable n j.no_members
  pub put-Readable :
      (n : ℕ) (k : Text) (v : j.Value) (m : j.Members)
      → Readable n v
      → MembersReadable n m
      → MembersReadable n (j.put k v m)
  pub get-object : (k : Text) (m : j.Members) → j.get k (j.object m) ≡ j.member k m
  pub member-put :
      (k i : Text) (v : j.Value) (m : j.Members)
      → j.member i (j.put k v m) ≡ (if text_eq k i then some v else j.member i m)
  pub as_str-string : (t : Text) → j.as_str (j.string t) ≡ some t
  pub as_array-array : (vs : List j.Value) → j.as_array (j.array vs) ≡ some vs
