-- ===== src/Main.antt =====
-- main.rs: the start of the program and its routes. The outside of it (the operating system's
-- sockets, the command line, the crypto provider, the parser of socket addresses) is a parameter.
pub mod Routes
pub mod Startup
pub mod Forwarding
pub mod Labels
pub mod Shutdown
use vixy.Prelude.{
  ℕ, zero, suc, ◌+◌, ◌/◌, ◌%◌, ltb, List, [], ◌∷◌, ◌++◌, Bool, true, false, ◌&&◌, Option, none,
  some, Text, bytes, Result, ok, err, map_err, ok_or, if◌then◌else◌,
}
use vixy.Config.{Config, Report, load}
use vixy.State.{AppState, new}
use vixy.Health.El.{unwrap_or}

pub record Args : Type 0 where
  pub config : Text
  pub listen : Text

-- The arguments, from what the command line has for each.
abbrev pub args : Option Text → Option Text → Args
args config listen = record {
  config = unwrap_or config (bytes "config.toml");
  listen = unwrap_or listen (bytes "0.0.0.0:8080");
}

-- `axum::routing::post`, `get` and `any`.
pub data Methods : Type 0 where
  post get any : Methods

-- The functions that answer requests.
pub data Handler : Type 0 where
  el_proxy_handler el_ws_handler cl_proxy_handler health status_handler metrics : Handler

pub record Route : Type 0 where
  pub path : Text
  pub methods : Methods
  pub handler : Handler

abbrev pub metrics_route : Route
metrics_route = record { path = bytes "/metrics"; methods = get; handler = metrics }

abbrev pub routes : List Route
routes =
    record { path = bytes "/el"; methods = post; handler = el_proxy_handler }
    ∷ record { path = bytes "/el/"; methods = post; handler = el_proxy_handler }
    ∷ record { path = bytes "/el/ws"; methods = get; handler = el_ws_handler }
    ∷ record { path = bytes "/el/ws/"; methods = get; handler = el_ws_handler }
    ∷ record { path = bytes "/cl"; methods = any; handler = cl_proxy_handler }
    ∷ record { path = bytes "/cl/"; methods = any; handler = cl_proxy_handler }
    ∷ record { path = bytes "/cl/{*path}"; methods = any; handler = cl_proxy_handler }
    ∷ record { path = bytes "/health"; methods = get; handler = health }
    ∷ record { path = bytes "/status"; methods = get; handler = status_handler }
    ∷ []

-- The router of the main server, with or without the metrics.
abbrev pub app : Bool → List Route
app metrics_here = if metrics_here then routes ++ metrics_route ∷ [] else routes

-- The digits of a number below `10 ^ k`.
unfoldable pub decimal : ℕ → ℕ → Text
decimal zero n = []
decimal (suc k) n =
    let high = decimal k (n / 10) in
    if ltb n 10 then (b'0' + n) ∷ [] else high ++ (b'0' + n % 10) ∷ []

-- `format!("0.0.0.0:{metrics_port}")`, for a `u16`.
abbrev pub metrics_address : ℕ → Text
metrics_address port = bytes "0.0.0.0:" ++ decimal 5 port

pub data MainError : Type 0 where
  no_crypto_provider : MainError
  not_loaded : Report → MainError
  invalid_metrics_port : ℕ → MainError
  invalid_listen_address : Text → MainError
  not_bound not_served : MainError

module _ (Address : Type 0) where
  -- What the start does to the rest of the world: it spawns the monitor over the state with its
  -- interval, registers the metrics, spawns the metrics server, listens, and serves routes over the
  -- state.
  pub data Effect : Type 0 where
    spawn_monitor : AppState → ℕ → Effect
    init_metrics : Effect
    spawn_metrics_server : Address → Effect
    bound : Address → Effect
    serve : AppState → List Route → Address → Effect

  -- `install_default`, `SocketAddr::parse`, `TcpListener::bind`, and whether `axum::serve` ends
  -- without an error.
  pub record Host : Type 0 where
    pub install_default : Bool
    pub url_parse : Text → Result Text (Unit {0})
    pub from_str : Text → Result Text Config
    pub read_to_string : Text → Result Text Text
    pub parse : Text → Option Address
    pub bind : Address → Bool
    pub serves : Address → Bool

  -- Code with effects that can leave with an error: its effects until then, in order.
  pub record Run {ℓ} (A : Type ℓ) : Type ℓ where
    pub effects : List Effect
    pub result : Result MainError A

  infixl 5 ◌>>=◌ ◌>>◌
  abbrev pub ◌>>=◌ {ℓ κ} : {A : Type ℓ} {B : Type κ} → Run A → (A → Run B) → Run B
  m >>= f = elim m.result [
    | err e ↦ record { effects = m.effects; result = err e }
    | ok a ↦ record { effects = m.effects ++ (f a).effects; result = (f a).result }
  ]

  abbrev pub ◌>>◌ {ℓ κ} : {A : Type ℓ} {B : Type κ} → Run A → Run B → Run B
  m >> k = m >>= λ _. k

  abbrev lift {ℓ} : {A : Type ℓ} → Result MainError A → Run A
  lift r = record { effects = []; result = r }

  abbrev perform : Effect → Run (Unit {0})
  perform e = record { effects = e ∷ []; result = ok tt }

  abbrev require : Bool → MainError → Run (Unit {0})
  require b e = lift (if b then ok tt else err e)

  module _ (host : Host) where
    -- The routes of the main server, once the metrics have their place.
    unfoldable pub place_metrics : Config → Run (List Route)
    place_metrics config =
        if config.metrics.enabled
        then elim config.metrics.port [
          | none ↦ lift (ok (app true))
          | some port ↦ do
            address ← lift (ok_or (host.parse (metrics_address port)) (invalid_metrics_port port))
            perform (spawn_metrics_server address)
            lift (ok (app false))
        ]
        else lift (ok (app false))

    unfoldable pub main : Args → Run (Unit {0})
    unfolding place_metrics
    main a = do
      require host.install_default no_crypto_provider
      config ←
          lift (map_err not_loaded (load host.url_parse host.from_str host.read_to_string a.config))
      perform (spawn_monitor (new config) config.global.health_check_interval_ms)
      if config.metrics.enabled then perform init_metrics else lift (ok tt)
      app ← place_metrics config
      address ← lift (ok_or (host.parse a.listen) (invalid_listen_address a.listen))
      require (host.bind address) not_bound
      perform (bound address)
      perform (serve (new config) app address)
      require (host.serves address) not_served

    -- The task of the metrics server: what it serves, if it can listen.
    unfoldable pub metrics_server : Address → Option (List Route)
    metrics_server address = if host.bind address then some (metrics_route ∷ []) else none
