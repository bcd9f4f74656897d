-- ===== src/Health/Beacon.antt =====
-- What a check of a consensus layer node returns, in health/cl.rs.
use vixy.Prelude.{
  ℕ, ◌<◌, ◌≤◌, ◌≡◌, ◌↔◌, inl, inr, Bool, true, false, some, Text, ok, same_test, Result-cases, ◌∙◌,
  ap, ok_or->>=, map_err-ok, Option-cases, arith,
}
use vixy.Health.Number.{u64_mod}
use vixy.Health.Number.Laws.{Numeral, from_str_radix_iff}
use vixy.Health.Net.{Net, Reply, BeaconHeaderResponse, IsSuccessLaw}
use vixy.Health.Cl.{health_url, headers_url, check_cl_health, check_cl_slot, check_cl_node}

-- The health endpoint answers with a status from 200 to 299.
abbrev pub HealthEndpointOk : Net → ℕ → Text → Type 0
HealthEndpointOk net visit url =
    (reply : Reply BeaconHeaderResponse) × (net.fetch visit (health_url url) ≡ some reply)
    × (200 ≤ reply.status)
    × (reply.status < 300)

-- The headers endpoint answers with a header whose slot is a decimal number of value `slot`.
pub record HeadSlot (net : Net) (visit : ℕ) (url : Text) (slot : ℕ) : Type 0 where
  pub reply : Reply BeaconHeaderResponse
  pub header : BeaconHeaderResponse
  pub replied : net.fetch visit (headers_url url) ≡ some reply
  pub decoded : reply.json ≡ some header
  pub numeral : Numeral 10 header.body.header.message.slot slot
  pub fits : slot < u64_mod

module _ (net : Net) (visit : ℕ) (url : Text) where
  slot_sound : (slot : ℕ) → check_cl_slot net visit url ≡ ok slot → HeadSlot net visit url slot
  unfolding check_cl_slot
  slot_sound slot h =
      let (reply, replied, h₁) = ok_or->>= (net.fetch visit (headers_url url)) _ _ h in
      let (header, decoded, h₂) = ok_or->>= reply.json _ _ h₁ in
      let (numeral, fits) = (from_str_radix_iff 10 _ slot (omega arith)).0 (map_err-ok _ _ h₂) in
      record {
        reply = reply;
        header = header;
        replied = replied;
        decoded = decoded;
        numeral = numeral;
        fits = fits;
      }

  slot_complete : (slot : ℕ) → HeadSlot net visit url slot → check_cl_slot net visit url ≡ ok slot
  unfolding check_cl_slot
  slot_complete slot a = ground (
    arith,
    (from_str_radix_iff 10 a.header.body.header.message.slot slot (omega arith)).1
        (a.numeral, a.fits),
  )

  health_lem :
      IsSuccessLaw net
      → (h : Bool) × (check_cl_health net visit url ≡ ok h)
        × ((h ≡ true) ↔ HealthEndpointOk net visit url)
  unfolding check_cl_health
  health_lem law = elim (Option-cases (net.fetch visit (health_url url))) [
    | inl e ↦ (
      false,
      rw (e, check_cl_health),
      (λ x. absurd (ground arith), λ (r, f, _, _). absurd (ground arith)),
    )
    | inr (r, e) ↦ (
      net.is_success r.status,
      rw (e, check_cl_health),
      (
        λ x. (r, e, ground (arith, law r.status), ground (arith, law r.status)),
        λ (q, f, lo, hi). ground (arith, law r.status),
      ),
    )
  ]

  node_sound :
      (b : Bool)
      → check_cl_health net visit url ≡ ok b
      → (health_ok : Bool) (slot : ℕ) → check_cl_node net visit url ≡ ok (health_ok, slot)
      → (b ≡ health_ok) × HeadSlot net visit url slot
  unfolding check_cl_node
  node_sound b e health_ok slot h = elim (Result-cases (check_cl_slot net visit url)) [
    | inl (s, f) ↦
        let same : s ≡ slot = ground arith in (ground arith, slot_sound slot (f ∙ ap ok same))
    | inr (m, f) ↦ absurd (ground arith)
  ]

  pub check_cl_node-HeadSlot :
      (health_ok : Bool) (slot : ℕ)
      → check_cl_node net visit url ≡ ok (health_ok, slot)
      → HeadSlot net visit url slot
  unfolding check_cl_node
  check_cl_node-HeadSlot health_ok slot h = elim (Result-cases (check_cl_health net visit url)) [
    | inl (b, e) ↦ (node_sound b e health_ok slot h).1
    | inr (m, e) ↦ absurd (ground arith)
  ]

  -- A check of a CL node succeeds with `health_ok` and `slot` exactly when the headers endpoint
  -- gives that slot, below 2^64, whatever the health endpoint does; and `health_ok` holds exactly
  -- when the health endpoint answers with a status from 200 to 299.
  pub check_cl_node_iff :
      IsSuccessLaw net
      → (health_ok : Bool) (slot : ℕ)
      → (check_cl_node net visit url ≡ ok (health_ok, slot))
        ↔ (HeadSlot net visit url slot × ((health_ok ≡ true) ↔ HealthEndpointOk net visit url))
  unfolding check_cl_node
  check_cl_node_iff law health_ok slot =
      let (b, e, spec) = health_lem law in
      (
        λ h. let (same, head) = node_sound b e health_ok slot h in (head, rw same at spec),
        λ (head, spec').
            let same = same_test b health_ok spec spec' in
            ground (arith, e, same, slot_complete slot head),
      )
