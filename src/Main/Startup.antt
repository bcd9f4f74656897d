-- ===== src/Main/Startup.antt =====
-- When the program of main.rs serves, and what; and how it leaves before.
use vixy.Prelude.{
  ℕ, ◌≡◌, ◌↔◌, ◌⊎◌, inl, inr, refl, sym, ◌∙◌, List, [], ◌∷◌, ◌++◌, Bool, true, false, none, some,
  Result, ok, err, if◌then◌else◌, Bool-cases, Option-cases, Result-cases,
}
use mathlib.Core.Path.{subst}
use vixy.Config.{Config, Report, load}
use vixy.State.{new}
use vixy.Main.{
  Args, Effect, spawn_monitor, init_metrics, spawn_metrics_server, bound, serve, Host, main, app,
  metrics_address, place_metrics, Run, MainError, no_crypto_provider, not_loaded,
  invalid_metrics_port, invalid_listen_address, not_bound, not_served,
}

module _ (Address : Type 0) (host : Host Address) where
  open host use {install_default, url_parse, from_str, read_to_string, parse, bind, serves}

  -- Where the metrics of a configuration are, and what the start does for that.
  pub data Placed (config : Config) : Bool → List (Effect Address) → Type 0 where
    disabled : config.metrics.enabled ≡ false → Placed config false []
    here :
        config.metrics.enabled ≡ true
        → config.metrics.port ≡ none
        → Placed config true (init_metrics ∷ [])
    elsewhere :
        (port : ℕ) (address : Address)
        → config.metrics.enabled ≡ true
        → config.metrics.port ≡ some port
        → parse (metrics_address port) ≡ some address
        → Placed config false (init_metrics ∷ spawn_metrics_server address ∷ [])

  -- The provider is there, and the configuration is read.
  abbrev pub Loaded : Args → Config → Type 0
  Loaded a config =
      (install_default ≡ true) × (load url_parse from_str read_to_string a.config ≡ ok config)

  abbrev monitor_of : Config → Effect Address
  monitor_of config = spawn_monitor (new config) config.global.health_check_interval_ms

  -- The ways in which a start can end, each with what it has done by then.
  pub data Outcome (a : Args) : List (Effect Address) → Result MainError (Unit {0}) → Type 0 where
    unprovided : install_default ≡ false → Outcome a [] (err no_crypto_provider)
    unread :
        (report : Report)
        → install_default ≡ true
        → load url_parse from_str read_to_string a.config ≡ err report
        → Outcome a [] (err (not_loaded report))
    unplaced :
        (config : Config) (port : ℕ)
        → Loaded a config
        → config.metrics.enabled ≡ true
        → config.metrics.port ≡ some port
        → parse (metrics_address port) ≡ none
        → Outcome a (monitor_of config ∷ init_metrics ∷ []) (err (invalid_metrics_port port))
    unparsed :
        (config : Config) (metrics_here : Bool) (metrics : List (Effect Address))
        → Loaded a config
        → Placed config metrics_here metrics
        → parse a.listen ≡ none
        → Outcome a (monitor_of config ∷ metrics) (err (invalid_listen_address a.listen))
    unbound :
        (config : Config) (metrics_here : Bool) (metrics : List (Effect Address))
        (address : Address)
        → Loaded a config
        → Placed config metrics_here metrics
        → parse a.listen ≡ some address
        → bind address ≡ false
        → Outcome a (monitor_of config ∷ metrics) (err not_bound)
    served :
        (config : Config) (metrics_here : Bool) (metrics : List (Effect Address))
        (address : Address)
        → Loaded a config
        → Placed config metrics_here metrics
        → parse a.listen ≡ some address
        → bind address ≡ true
        → Outcome a
            (monitor_of config ∷ metrics
              ++ (bound address ∷ serve (new config) (app metrics_here) address ∷ []))
            (if serves address then ok tt else err not_served)

  Outcome-main :
      {a : Args} {effects : List (Effect Address)} {result : Result MainError (Unit {0})}
      → Outcome a effects result
      → main Address host a ≡ record { effects = effects; result = result }
  unfolding main place_metrics
  Outcome-main (unprovided e) = rw (e, main) refl
  Outcome-main (unread report e f) = rw (e, f, main) refl
  Outcome-main (unplaced config port (e, f) g h k) = rw (e, f, g, h, k, main, place_metrics) refl
  Outcome-main (unparsed config _ _ (e, f) (disabled q) k) =
      rw (e, f, q, k, main, place_metrics) refl
  Outcome-main (unparsed config _ _ (e, f) (here q o) k) =
      rw (e, f, q, o, k, main, place_metrics) refl
  Outcome-main (unparsed config _ _ (e, f) (elsewhere port there q o r) k) =
      rw (e, f, q, o, r, k, main, place_metrics) refl
  Outcome-main (unbound config _ _ address (e, f) (disabled q) k b) =
      rw (e, f, q, k, b, main, place_metrics) refl
  Outcome-main (unbound config _ _ address (e, f) (here q o) k b) =
      rw (e, f, q, o, k, b, main, place_metrics) refl
  Outcome-main (unbound config _ _ address (e, f) (elsewhere port there q o r) k b) =
      rw (e, f, q, o, r, k, b, main, place_metrics) refl
  Outcome-main (served config _ _ address (e, f) (disabled q) k b) =
      rw (e, f, q, k, b, main, place_metrics) refl
  Outcome-main (served config _ _ address (e, f) (here q o) k b) =
      rw (e, f, q, o, k, b, main, place_metrics) refl
  Outcome-main (served config _ _ address (e, f) (elsewhere port there q o r) k b) =
      rw (e, f, q, o, r, k, b, main, place_metrics) refl

  placed :
      (config : Config)
      → ((metrics_here : Bool) × (metrics : List (Effect Address)) × Placed config metrics_here
            metrics)
        ⊎ ((port : ℕ) × (config.metrics.enabled ≡ true)
            × (config.metrics.port ≡ some port)
            × (parse (metrics_address port) ≡ none))
  placed config = elim (Bool-cases config.metrics.enabled) [
    | inr e ↦ inl (false, [], disabled e)
    | inl e ↦ elim (Option-cases config.metrics.port) [
      | inl f ↦ inl (true, _, here e f)
      | inr (port, f) ↦ elim (Option-cases (parse (metrics_address port))) [
        | inl g ↦ inr (port, e, f, g)
        | inr (address, g) ↦ inl (false, _, elsewhere port address e f g)
      ]
    ]
  ]

  abbrev SomeOutcome : Args → Type 0
  SomeOutcome a =
      (effects : List (Effect Address)) × (result : Result MainError (Unit {0})) × Outcome a effects
        result

  after_load : (a : Args) (config : Config) → Loaded a config → SomeOutcome a
  after_load a config l = elim (placed config) [
    | inr (port, e, f, g) ↦ (_, _, unplaced config port l e f g)
    | inl (metrics_here, metrics, p) ↦ elim (Option-cases (parse a.listen)) [
      | inl e ↦ (_, _, unparsed config metrics_here metrics l p e)
      | inr (address, e) ↦ elim (Bool-cases (bind address)) [
        | inr f ↦ (_, _, unbound config metrics_here metrics address l p e f)
        | inl f ↦ (_, _, served config metrics_here metrics address l p e f)
      ]
    ]
  ]

  some_outcome : (a : Args) → SomeOutcome a
  some_outcome a = elim (Bool-cases install_default) [
    | inr e ↦ (_, _, unprovided e)
    | inl e ↦ elim (Result-cases (load url_parse from_str read_to_string a.config)) [
      | inl (config, f) ↦ after_load a config (e, f)
      | inr (report, f) ↦ (_, _, unread report e f)
    ]
  ]

  -- The start has exactly the effects and the result of one of the outcomes. So it spawns the
  -- monitor if and only if the configuration is loaded, before all else and over the state that it
  -- serves; the metrics are on one server at most, as the configuration says; it serves only on an
  -- address that it listens on. Each failure before that leaves with its own error, and serves
  -- nothing; a server that ends with an error leaves with `not_served`, after it was started.
  pub main_iff :
      (a : Args) (effects : List (Effect Address)) (result : Result MainError (Unit {0}))
      → (main Address host a ≡ record { effects = effects; result = result })
        ↔ Outcome a effects result
  main_iff a effects result = (to, Outcome-main)
    where
      to :
          main Address host a ≡ record { effects = effects; result = result }
          → Outcome a effects result
      to e =
          let (fx, r, o) = some_outcome a in
          subst (λ (run : Run Address (Unit {0})). Outcome a run.effects run.result)
            (sym (Outcome-main o) ∙ e) o
