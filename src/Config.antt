-- ===== src/Config.antt =====
-- config.rs: the settings, their defaults and their validation. The TOML decoder, the URL parser
-- and the file system are parameters; `Report` is an `eyre` report with its chain of contexts.
pub mod Validation
use vixy.Prelude.{
  ℕ, ◌++◌, List, [], ◌∷◌, Option, none, Bool, true, not, ◌&&◌, Text, bytes, starts_with, is_empty,
  Result, ok, err, map_err, ◌>>=◌, ◌>>◌, if◌then◌else◌,
}

pub data ConfigError : Type 0 where
  missing_field : Text → ConfigError
  invalid_url : Text → Text → ConfigError
  validation_failed : Text → ConfigError

-- An error of the program, one of a library with its message, or either under a context.
pub data Report : Type 0 where
  root : ConfigError → Report
  foreign : Text → Report
  wrapped : Text → Report → Report

pub record Global : Type 0 where
  pub max_el_lag_blocks : ℕ
  pub max_cl_lag_slots : ℕ
  pub health_check_interval_ms : ℕ
  pub proxy_timeout_ms : ℕ
  pub max_retries : ℕ
  pub health_check_max_failures : ℕ

pub record Metrics : Type 0 where
  pub enabled : Bool
  pub port : Option ℕ

abbrev pub default_metrics : Metrics
default_metrics = record { enabled = true; port = none }

abbrev pub default_global : Global
default_global = record {
  max_el_lag_blocks = 5;
  max_cl_lag_slots = 3;
  health_check_interval_ms = 1000;
  proxy_timeout_ms = 30000;
  max_retries = 2;
  health_check_max_failures = 3;
}

pub record ElNode : Type 0 where
  pub name : Text
  pub http_url : Text
  pub ws_url : Text

pub record El : Type 0 where
  pub primary : List ElNode
  pub backup : List ElNode

pub record Cl : Type 0 where
  pub name : Text
  pub url : Text

pub record Config : Type 0 where
  pub global : Global
  pub metrics : Metrics
  pub el : El
  pub cl : List Cl

abbrev pub must_start : Text
must_start = bytes " must start with http://, https://, ws://, or wss://"

abbrev pub no_primary : ConfigError
no_primary = validation_failed (bytes "at least one primary EL node is required")

abbrev no_cl : ConfigError
no_cl = validation_failed (bytes "at least one CL node is required")

-- `format!("{label} '{name}'")`
abbrev pub quoted : Text → Text → Text
quoted label name = label ++ bytes " '" ++ name ++ bytes "'"

-- `url::Url::parse`, of which the program uses the success and the error's message.
module _ (url_parse : Text → Result Text (Unit {0})) where
  unfoldable pub validate_url : Text → Text → Result Report (Unit {0})
  validate_url url field_name =
      if not (starts_with (bytes "http://") url)
        && not (starts_with (bytes "https://") url)
        && not (starts_with (bytes "ws://") url)
        && not (starts_with (bytes "wss://") url)
      then err (root (invalid_url url (field_name ++ must_start)))
      else map_err (λ e. root (invalid_url url e)) (url_parse url)

  unfoldable pub validate_el_node : ElNode → Result Report (Unit {0})
  validate_el_node node = do
    validate_url node.http_url (bytes "http_url")
    validate_url node.ws_url (bytes "ws_url")
    ok tt

  -- One of the loops of `El::validate`, whose context begins with `label`.
  unfoldable pub validate_el_nodes : Text → List ElNode → Result Report (Unit {0})
  validate_el_nodes label [] = ok tt
  validate_el_nodes label (node ∷ nodes) =
      map_err (wrapped (quoted label node.name)) (validate_el_node node)
      >> validate_el_nodes label nodes

  unfoldable pub validate_el : El → Result Report (Unit {0})
  validate_el el =
      if is_empty el.primary
      then err (root no_primary)
      else (validate_el_nodes (bytes "invalid primary EL node") el.primary
          >> validate_el_nodes (bytes "invalid backup EL node") el.backup)

  unfoldable pub validate_cl : Cl → Result Report (Unit {0})
  validate_cl node = do validate_url node.url (bytes "url"); ok tt

  -- The loop of `Config::validate`.
  unfoldable pub validate_cls : List Cl → Result Report (Unit {0})
  validate_cls [] = ok tt
  validate_cls (node ∷ nodes) =
      map_err (wrapped (quoted (bytes "invalid CL node") node.name)) (validate_cl node)
      >> validate_cls nodes

  unfoldable pub validate : Config → Result Report (Unit {0})
  validate config = do
    map_err (wrapped (bytes "invalid EL configuration")) (validate_el config.el)
    if is_empty config.cl then err (root no_cl) else validate_cls config.cl

  -- `toml::from_str` with its message on failure, and `std::fs::read_to_string`.
  module _ (from_str : Text → Result Text Config) (read_to_string : Text → Result Text Text) where
    unfoldable pub parse : Text → Result Report Config
    parse s = do
      config ←
          map_err (λ e. wrapped (bytes "failed to parse TOML configuration") (foreign e))
            (from_str s)
      validate config
      ok config

    unfoldable pub load : Text → Result Report Config
    load path = do
      content ←
          map_err (λ e. wrapped (bytes "failed to read " ++ path) (foreign e)) (read_to_string path)
      parse content
