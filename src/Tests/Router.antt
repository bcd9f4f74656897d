-- ===== src/Tests/Router.antt =====
-- A router that finds the first route that matches, with the documented laws; and the theorems on
-- main.rs at it.
use vixy.Prelude.{
  ◌==◌, ◌≡◌, ◌↔◌, ◌⊎◌, inl, inr, refl, List, [], ◌∷◌, ◌++◌, Bool, true, false, not, ok, ◌&&◌, ◌||◌,
  none, some, Text, bytes, text_eq, text_eq_iff, is_empty, starts_with, trim_end_matches,
  if◌then◌else◌, arith, Bool-cases,
}
use vixy.Http.{full_url, query_text}
use vixy.Main.Forwarding.{cl_route-full_url}
use vixy.Main.Startup.{Outcome, main_iff}
use vixy.Tests.Sample.{config, nimbus}
use vixy.Main.{decimal, metrics_address, args, Host, Run, main, Methods, post, get, Route, app}
use vixy.Main.Routes.Table.{dispatch-table}
use vixy.Main.Routes.{
  Axum, AxumLaws, Dispatch, handled, not_found, method_not_allowed, has_brace, is_get, matching,
  called, table, is_get_iff, rest_iff,
}

-- What stands before the first brace.
abbrev before_brace : Text → Text
before_brace [] = []
before_brace (c ∷ p) = if c == b'{' then [] else c ∷ before_brace p

abbrev matches : Text → Text → Bool
matches p path =
    if has_brace p
    then starts_with (before_brace p) path && not (text_eq path (before_brace p))
    else text_eq path p

abbrev accepts : Methods → Text → Bool
accepts post method = text_eq method (bytes "POST")
accepts get method = is_get method
accepts Methods.any method = true

abbrev first : List Route → Text → Text → Dispatch
first [] method path = not_found
first (r ∷ rs) method path =
    let rest = first rs method path in
    if matches r.path path
    then (if accepts r.methods method then handled r.handler else method_not_allowed)
    else rest

abbrev pub router : Axum
router = record { matches = matches; accepts = accepts; dispatch = first }

brace-before :
    (p name : Text)
    → has_brace p ≡ false
    → (has_brace (p ++ b'{' ∷ name) ≡ true) × (before_brace (p ++ b'{' ∷ name) ≡ p)
brace-before [] name plain = (refl, refl)
brace-before (c ∷ p) name plain = ground (arith, plain, brace-before p name)

first-one :
    (rs : List Route) (method path : Text) (r : Route) (rest : List Route)
    → matching router rs path ≡ r ∷ rest
    → first rs method path ≡ called router r method
first-one [] method path r rest e = absurd (ground (arith, e))
first-one (k ∷ rs) method path r rest e = elim (Bool-cases (matches k.path path)) [
  | inr f ↦ rw f (first-one rs method path r rest (ground (arith, e, f)))
  | inl f ↦ let same : k ≡ r = ground (arith, e, f) in rw (f, ← same) refl
]

first-none :
    (rs : List Route) (method path : Text)
    → matching router rs path ≡ []
    → first rs method path ≡ not_found
first-none [] method path e = refl
first-none (k ∷ rs) method path e = ground (arith, e, first-none rs method path)

pub router_laws : AxumLaws router
router_laws = record {
  matches-static = λ p path plain. rw plain (text_eq_iff path p);
  matches-rest = λ p name path plain.
      let (brace, before) = brace-before p (b'*' ∷ (name ++ bytes "}")) plain in
      rw (brace, before) (rest_iff p path);
  accepts-post = λ method. text_eq_iff method (bytes "POST");
  accepts-get = is_get_iff;
  accepts-any = λ method. refl;
  dispatch-one = λ rs method path r e. first-one rs method path r [] e;
  dispatch-none = first-none;
}

dispatch-table_example :
    first (app true) (bytes "GET") (bytes "/metrics") ≡ table true (bytes "GET") (bytes "/metrics")
dispatch-table_example = dispatch-table router router_laws true (bytes "GET") (bytes "/metrics")

cl_route-full_url_example :
    ((bytes "/cl/eth" ≡ bytes "/cl")
      × (full_url nimbus.url (bytes "/cl/eth") none
          ≡ trim_end_matches b'/' nimbus.url ++ query_text none))
    ⊎ ((rest : Text) × (bytes "/cl/eth" ≡ bytes "/cl/" ++ rest)
        × (full_url nimbus.url (bytes "/cl/eth") none ≡ (
            if is_empty rest || text_eq rest (bytes "/")
            then trim_end_matches b'/' nimbus.url ++ query_text none
            else if starts_with (bytes "/") rest
            then trim_end_matches b'/' nimbus.url ++ (rest ++ query_text none)
            else trim_end_matches b'/' nimbus.url ++ (bytes "/" ++ (rest ++ query_text none)))))
unfolding text_eq starts_with
cl_route-full_url_example =
    cl_route-full_url router router_laws true (bytes "DELETE") (bytes "/cl/eth") nimbus.url none
      refl

-- A machine on which every address can be listened on.
abbrev host : Host Text
host = record {
  install_default = true;
  url_parse = λ url. ok tt;
  from_str = λ content. ok config;
  read_to_string = λ path. ok (bytes "[global]");
  parse = λ address. some address;
  bind = λ address. true;
  serves = λ address. true;
}

abbrev served : Run Text (Unit {0})
served = main Text host (args none none)

main_iff_example :
    (main Text host (args none none) ≡ served)
    ↔ Outcome Text host (args none none) served.effects served.result
main_iff_example = main_iff Text host (args none none) served.effects served.result

-- A port in decimal digits, and the address of the metrics server.
decimal_digits : decimal 5 65535 ≡ bytes "65535"
unfolding decimal
decimal_digits = refl

metrics_address_digits : metrics_address 9090 ≡ bytes "0.0.0.0:9090"
unfolding decimal
metrics_address_digits = refl
