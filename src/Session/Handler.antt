-- ===== src/Session/Handler.antt =====
-- `Handler` of internal/session/handler.go: one request, from the path to the end of its session. The
-- WebSocket upgrade and the session's `Run` are not under it: whether the upgrade succeeds is an argument,
-- and so is what other requests do to the registry before this one's session is registered and while it
-- runs. The session is the number `address`.
pub mod Laws
mod Tests
use xiaozhi_esp32_golang_ser.Prelude.{
  ℕ, Bool, true, false, Option, none, some, List, [], ◌∷◌, if◌then◌else◌, ◌==◌,
}
use xiaozhi_esp32_golang_ser.Session.Limiter.{SessionLimiter, new_session_limiter, release}
use xiaozhi_esp32_golang_ser.Session.Message.{Text}
use xiaozhi_esp32_golang_ser.Session.Message.Parse.{text_eq, codes}
use xiaozhi_esp32_golang_ser.Session.Auth.{
  Header, ClientHeaderInfo, AuthError, Admission, admitted, rejected, authenticate_upgrade,
}
use xiaozhi_esp32_golang_ser.Session.Registry.{
  Registry, new_registry, acquire, register, unregister, shutdown, device_key,
}

-- The settings that the handler reads.
pub record HandlerConfig : Type 0 where
  pub device_shared_token : Text
  pub max_http_header_bytes : ℕ
  pub max_concurrent_sessions : ℕ

unfoldable pub default_registry : HandlerConfig → Registry
default_registry cfg = new_registry (
    new_session_limiter
      (if cfg.max_concurrent_sessions == 0 then 1 else cfg.max_concurrent_sessions))

-- The registry that a handler works with: the one that it is given, or one of its own.
unfoldable pub new_handler_with_registry : HandlerConfig → Option Registry → Registry
unfolding default_registry
new_handler_with_registry cfg none = default_registry cfg
new_handler_with_registry cfg (some r) = r

-- `served` names the older session of the device, which was closed.
pub data Outcome : Type 0 where
  not_found busy upgrade_failed shutting_down : Outcome
  denied : AuthError → Outcome
  served : Option ℕ → Outcome

pub record Request : Type 0 where
  pub path : Text
  pub headers : Header
  pub upgrades : Bool
  pub address : ℕ

module _ (sha256 : Text → List ℕ) (before during : Registry → Registry) where
  -- `Run`, and what was deferred. A refused registration gives the slot back.
  unfoldable pub run_registered : ℕ → Registry × Option ℕ × Option ℕ → Registry × Outcome
  run_registered slot (r, none, old) =
      (record r { limiter = release slot r.limiter }, shutting_down)
  run_registered slot (r, some cleanup, old) = (unregister cleanup (during r), served old)

  unfoldable pub serve_slot : Request → ClientHeaderInfo → Registry × Option ℕ → Registry × Outcome
  unfolding run_registered
  serve_slot req info (r, none) = (r, busy)
  serve_slot req info (r, some slot) =
      if req.upgrades
      then run_registered slot
          (register req.address (device_key (some info)) (slot ∷ []) (before r))
      else (record r { limiter = release slot r.limiter }, upgrade_failed)

  unfoldable pub serve_client : Request → Admission → Registry → Registry × Outcome
  unfolding serve_slot
  serve_client req (rejected e) r = (r, denied e)
  serve_client req (admitted info) r = serve_slot req info (acquire r)

  unfoldable pub serve_http : HandlerConfig → Request → Registry → Registry × Outcome
  unfolding serve_client
  serve_http cfg req r =
      if text_eq req.path (codes "/xiaozhi/v1/")
      then serve_client req
          (authenticate_upgrade sha256 (some req.headers) cfg.device_shared_token
            cfg.max_http_header_bytes)
          r
      else (r, not_found)

-- `Close` and `Shutdown`: the sessions to close.
unfoldable pub close_handler : Registry → Registry × List ℕ
close_handler r = shutdown r
