-- ===== src/Tests/Handlers.antt =====
-- The theorems on the HTTP handlers, at concrete inputs.
use vixy.Prelude.{◌≡◌, ◌↔◌, false, All, [], ◌∷◌, bytes, arith}
use vixy.Monitor.{run_health_monitor}
use vixy.Http.{unavailable, no_el_node, el_proxy_handler, cl_proxy_handler}
use vixy.Http.Forward.{ClientLaws, ElServed, ClServed, proxy_handlers_iff}
use vixy.Http.Routing.{el_proxy_handler-refuses}
use vixy.Tests.Sample.{initial, backup_only, up, down, echo, request}

el_proxy_handler-refuses_example :
    let t = (run_health_monitor (backup_only ∷ down ∷ []) initial).0 in
    (el_proxy_handler echo t t request ≡ (unavailable no_el_node, []))
    ↔ All (λ n. n.is_healthy ≡ false) t.el_nodes
el_proxy_handler-refuses_example =
    el_proxy_handler-refuses echo backup_only (down ∷ []) initial request

echo_laws : ClientLaws echo
echo_laws = record {
  three_digits = λ out status body e. (ground (arith, e), ground (arith, e));
  from_u16 = λ code lo hi. ground arith;
}

proxy_handlers_iff_example :
    let t = (run_health_monitor (backup_only ∷ up ∷ []) initial).0 in
    (((el_proxy_handler echo initial t request).0 ≡ record { status = 201; body = bytes "{}" })
      ↔ ElServed echo initial t request (record { status = 201; body = bytes "{}" }))
    × (((cl_proxy_handler echo t request).0 ≡ record { status = 201; body = bytes "{}" })
        ↔ ClServed echo t request (record { status = 201; body = bytes "{}" }))
proxy_handlers_iff_example =
    proxy_handlers_iff echo echo_laws initial (run_health_monitor (backup_only ∷ up ∷ []) initial).0
      request (record { status = 201; body = bytes "{}" })
