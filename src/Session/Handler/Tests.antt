-- ===== src/Session/Handler/Tests.antt =====
-- The theorem on the handler at a concrete request.
use xiaozhi_esp32_golang_ser.Prelude.{ℕ, refl, true, false, List, [], ◌∷◌, arith}
use xiaozhi_esp32_golang_ser.Session.Message.{Text}
use xiaozhi_esp32_golang_ser.Session.Message.Parse.{codes}
use xiaozhi_esp32_golang_ser.Session.Registry.{Registry}
use xiaozhi_esp32_golang_ser.Session.Registry.Laws.{IsSound}
use xiaozhi_esp32_golang_ser.Session.Handler.{HandlerConfig, Request, serve_http}
use xiaozhi_esp32_golang_ser.Session.Handler.Laws.{GivesBack, quiet, may_shut, serve_http-GivesBack}

abbrev request : Request
request = record {
  path = codes "/xiaozhi/v1/";
  headers =
      (codes "Protocol-Version", codes "1" ∷ [])
      ∷ (codes "Authorization", codes "Bearer secret" ∷ [])
      ∷ [];
  upgrades = true;
  address = 4;
}

abbrev handler_config : HandlerConfig
handler_config = record {
  device_shared_token = codes "secret";
  max_http_header_bytes = 1024;
  max_concurrent_sessions = 3;
}

-- A session at another address is running.
abbrev one_session : Registry
one_session = record {
  limiter = record { active = 1; max = 3; onces = false ∷ [] };
  sessions = 5 ∷ [];
  by_device = (1 ∷ [], 5) ∷ [];
  waiting = 1;
  closed = false;
  cleanups = record { session = 5; key = 1 ∷ []; releases = 0 ∷ [] } ∷ [];
  onces = false ∷ [];
}

abbrev digest : Text → List ℕ
digest t = t

one_session-IsSound : IsSound one_session
one_session-IsSound = record { aligned = refl; counted = refl }

serve_http-GivesBack_example :
    GivesBack one_session
      (serve_http digest (may_shut false) quiet handler_config request one_session).0
serve_http-GivesBack_example =
    serve_http-GivesBack digest false handler_config request one_session one_session-IsSound
      (λ h. omega (arith, h), tt)
