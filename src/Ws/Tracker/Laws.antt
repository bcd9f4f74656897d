-- ===== src/Ws/Tracker/Laws.antt =====
-- The tracker's maps: what each operation keeps and changes.
use vixy.Prelude.{
  ◌≡◌, refl, Bool, not, List, [], ◌∷◌, Option, none, some, Text, text_eq, text_eq_iff, Dict, get,
  insert, retain, get-insert, get-remove, All, if◌then◌else◌, arith,
}
use vixy.Ws.Tracker.{
  SubscriptionTracker, track_subscribe, map_upstream_id, translate_to_client_id,
  remove_subscription, clear_upstream_mappings,
}

module _ {ℓ κ} {V : Type ℓ} (P : Text × V → Type κ) where
  insert-All : (k : Text) (v : V) (m : Dict V) → All P m → P (k, v) → All P (insert k v m)
  unfolding insert
  insert-All k v [] h p = (p, tt)
  insert-All k v ((i, w) ∷ m) h p = ground (arith, insert-All k v m h.1 p)

  retain-All : (keep : V → Bool) (m : Dict V) → All P m → All P (retain keep m)
  unfolding retain
  retain-All keep [] h = tt
  retain-All keep ((i, w) ∷ m) h = ground (arith, retain-All keep m h.1)

get-identity :
    (k : Text) (m : Dict Text) {v : Text} → All (λ e. e.0 ≡ e.1) m → get k m ≡ some v → v ≡ k
unfolding get
get-identity k [] h e = ground arith
get-identity k ((i, w) ∷ m) {v} h e =
    ground (arith, text_eq_iff i k, h.0, get-identity k m {v = v} h.1)

module _ {Value : Type 0} where
  -- Every upstream id stands for itself.
  abbrev pub IsIdentity : SubscriptionTracker Value → Type 0
  IsIdentity t = All (λ e. e.0 ≡ e.1) t.upstream_to_client_id

  pub translate-IsIdentity :
      (t : SubscriptionTracker Value) (u : Text) {c : Text}
      → IsIdentity t
      → translate_to_client_id t u ≡ some c
      → c ≡ u
  unfolding translate_to_client_id
  translate-IsIdentity t u h e = get-identity u t.upstream_to_client_id h e

  pub track_subscribe-IsIdentity :
      (t : SubscriptionTracker Value) (ps : List Value) (id : Value) (c : Text)
      → IsIdentity t
      → IsIdentity (track_subscribe t ps id c)
  unfolding track_subscribe
  track_subscribe-IsIdentity t ps id c h =
      insert-All (λ e. e.0 ≡ e.1) c c t.upstream_to_client_id h refl

  pub remove_subscription-IsIdentity :
      (t : SubscriptionTracker Value) (c : Text)
      → IsIdentity t
      → IsIdentity (remove_subscription t c)
  unfolding remove_subscription
  remove_subscription-IsIdentity t c h =
      retain-All (λ e. e.0 ≡ e.1) (λ v. not (text_eq v c)) t.upstream_to_client_id h

-- No key stands twice.
abbrev pub Unique {ℓ} : {V : Type ℓ} → Dict V → Type ℓ
Unique [] = Unit
Unique ((k, v) ∷ m) = (get k m ≡ none) × Unique m

abbrev pub kept {ℓ} : {V : Type ℓ} → (V → Bool) → Option V → Option V
kept keep none = none
kept keep (some v) = if keep v then some v else none

module _ {ℓ} {V : Type ℓ} where
  get-retain :
      (keep : V → Bool) (k : Text) (m : Dict V)
      → Unique m
      → get k (retain keep m) ≡ kept keep (get k m)
  unfolding get retain
  get-retain keep k [] u = refl
  get-retain keep k ((i, w) ∷ m) u = ground (arith, text_eq_iff i k, get-retain keep k m u.1)

  insert-Unique : (k : Text) (v : V) (m : Dict V) → Unique m → Unique (insert k v m)
  unfolding insert get
  insert-Unique k v [] u = (refl, tt)
  insert-Unique k v ((i, w) ∷ m) u =
      ground (arith, text_eq_iff i k, text_eq_iff k i, get-insert k i v m, insert-Unique k v m u.1)

  retain-Unique : (keep : V → Bool) (m : Dict V) → Unique m → Unique (retain keep m)
  unfolding retain
  retain-Unique keep [] u = tt
  retain-Unique keep ((i, w) ∷ m) u =
      ground (arith, get-retain keep i m u.1, retain-Unique keep m u.1)

module _ {Value : Type 0} (t : SubscriptionTracker Value) where
  -- The tracker implements two maps, from client ids to requests and from upstream ids to client
  -- ids: to track binds the id in both, to map binds the upstream id, to clear forgets all upstream
  -- ids, and to remove forgets the subscription and every upstream id that stands for it.
  pub tracker_lem :
      Unique t.upstream_to_client_id
      → (ps : List Value) (rpc_id : Value) (c u i : Text)
      → (get i (track_subscribe t ps rpc_id c).subscriptions ≡ (
          if text_eq c i
          then some (record { rpc_id = rpc_id; params = ps; client_sub_id = c })
          else get i t.subscriptions))
        × (translate_to_client_id (track_subscribe t ps rpc_id c) i
            ≡ (if text_eq c i then some c else translate_to_client_id t i))
        × (translate_to_client_id (map_upstream_id t u c) i
            ≡ (if text_eq u i then some c else translate_to_client_id t i))
        × (translate_to_client_id (clear_upstream_mappings t) i ≡ none)
        × (get i (remove_subscription t c).subscriptions
            ≡ (if text_eq c i then none else get i t.subscriptions))
        × (translate_to_client_id (remove_subscription t c) i
            ≡ kept (λ d. not (text_eq d c)) (translate_to_client_id t i))
  unfolding track_subscribe map_upstream_id clear_upstream_mappings remove_subscription
      translate_to_client_id get
  tracker_lem unique ps rpc_id c u i = (
    get-insert c i _ t.subscriptions,
    get-insert c i c t.upstream_to_client_id,
    get-insert u i c t.upstream_to_client_id,
    refl,
    get-remove c i t.subscriptions,
    get-retain (λ d. not (text_eq d c)) i t.upstream_to_client_id unique,
  )

  -- Every operation keeps the upstream ids distinct.
  tracker-Unique :
      Unique t.upstream_to_client_id
      → (ps : List Value) (rpc_id : Value) (c u : Text)
      → Unique (track_subscribe t ps rpc_id c).upstream_to_client_id
        × Unique (map_upstream_id t u c).upstream_to_client_id
        × Unique (clear_upstream_mappings t).upstream_to_client_id
        × Unique (remove_subscription t c).upstream_to_client_id
  unfolding track_subscribe map_upstream_id clear_upstream_mappings remove_subscription
  tracker-Unique unique ps rpc_id c u = (
    insert-Unique c c t.upstream_to_client_id unique,
    insert-Unique u c t.upstream_to_client_id unique,
    tt,
    retain-Unique _ t.upstream_to_client_id unique,
  )
