-- ===== src/UnitTests/Config.antt =====
-- The unit tests of config.rs on texts that the TOML decoder accepts. A text is named by what the
-- decoder makes of it, and the URL parser takes what has passed the test of the scheme.
use vixy.Prelude.{
  ◌==◌, ◌≡◌, refl, Bool, true, false, ◌&&◌, length, List, [], ◌∷◌, Text, bytes, text_eq, is_empty,
  starts_with, strip_prefix, Result, ok, err,
}
use vixy.Config.{
  Config, Report, ElNode, Cl, default_global, default_metrics, parse, validate, validate_el,
  validate_el_nodes, validate_el_node, validate_cls, validate_cl, validate_url,
}

abbrev geth_1 : ElNode
geth_1 = record {
  name = bytes "geth-1";
  http_url = bytes "http://localhost:8545";
  ws_url = bytes "ws://localhost:8546";
}

abbrev geth_2 : ElNode
geth_2 = record {
  name = bytes "geth-2";
  http_url = bytes "http://localhost:8547";
  ws_url = bytes "ws://localhost:8548";
}

abbrev alchemy_1 : ElNode
alchemy_1 = record {
  name = bytes "alchemy-1";
  http_url = bytes "https://eth-mainnet.g.alchemy.com/v2/xxx";
  ws_url = bytes "wss://eth-mainnet.g.alchemy.com/v2/xxx";
}

abbrev lighthouse_1 : Cl
lighthouse_1 = record { name = bytes "lighthouse-1"; url = bytes "http://localhost:5052" }

abbrev prysm_1 : Cl
prysm_1 = record { name = bytes "prysm-1"; url = bytes "http://localhost:5053" }

abbrev valid_config : Config
valid_config = record {
  global = default_global;
  metrics = default_metrics;
  el = record { primary = geth_1 ∷ geth_2 ∷ []; backup = alchemy_1 ∷ [] };
  cl = lighthouse_1 ∷ prysm_1 ∷ [];
}

-- `Config::parse` on the text that decodes to the configuration.
abbrev parsed : Config → Result Report Config
parsed config = parse (λ url. ok tt) (λ s. ok config) (λ path. err []) []

abbrev passes_with : Result Report Config → (Config → Bool) → Bool
passes_with (ok config) test = test config
passes_with (err e) test = false

abbrev is_err : Result Report Config → Bool
is_err (ok config) = false
is_err (err e) = true

abbrev first_el_is : Text → Text → Text → List ElNode → Bool
first_el_is name http_url ws_url [] = false
first_el_is name http_url ws_url (n ∷ ns) =
    text_eq n.name name && text_eq n.http_url http_url && text_eq n.ws_url ws_url

abbrev first_cl_is : Text → Text → List Cl → Bool
first_cl_is name url [] = false
first_cl_is name url (n ∷ ns) = text_eq n.name name && text_eq n.url url

abbrev test_parse_valid_config : Bool
test_parse_valid_config = passes_with (parsed valid_config) (λ config.
    (config.global.max_el_lag_blocks == 5)
    && (config.global.max_cl_lag_slots == 3)
    && (config.global.health_check_interval_ms == 1000)
    && (length config.el.primary == 2)
    && (length config.el.backup == 1)
    && (length config.cl == 2)
    && first_el_is (bytes "geth-1") (bytes "http://localhost:8545") (bytes "ws://localhost:8546")
        config.el.primary
    && first_cl_is (bytes "lighthouse-1") (bytes "http://localhost:5052") config.cl)

abbrev test_parse_config_invalid_url_fails : Bool
test_parse_config_invalid_url_fails =
    let bad : ElNode = record geth_1 { http_url = bytes "not-a-valid-url" } in
    is_err (
      parsed (record valid_config {
        el = record { primary = bad ∷ []; backup = [] };
        cl = lighthouse_1 ∷ [];
      }))

abbrev test_empty_backup_is_valid : Bool
test_empty_backup_is_valid =
    passes_with
      (parsed (record valid_config {
        el = record { primary = geth_1 ∷ []; backup = [] };
        cl = lighthouse_1 ∷ [];
      }))
      (λ config. is_empty config.el.backup)

-- All of them pass.
passes :
    (test_parse_valid_config && test_parse_config_invalid_url_fails && test_empty_backup_is_valid)
    ≡ true
unfolding parse validate validate_el validate_el_nodes validate_el_node validate_cls validate_cl
    validate_url starts_with strip_prefix text_eq
passes = refl
