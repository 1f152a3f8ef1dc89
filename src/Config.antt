-- ===== src/Config.antt =====
-- `Validate` of internal/config/config.go. `url.Parse` is a parameter. The first check that fails gives
-- the error; its text is left out, but for the setting and what is wrong with it.
pub mod Settings
pub mod Bounds
mod Checks
mod Plain
pub mod Laws
pub mod Tests
use xiaozhi_esp32_golang_ser.Prelude.{
  ℕ, ◌*◌, Bool, true, false, not, ◌&&◌, ◌||◌, Option, none, some, List, [], ◌∷◌, if◌then◌else◌,
}
use xiaozhi_esp32_golang_ser.Prelude.Int.{ℤ, pos, lt_ℤ}
use xiaozhi_esp32_golang_ser.Session.Splitter.{trim_space}
use xiaozhi_esp32_golang_ser.Session.Message.{Text}
use xiaozhi_esp32_golang_ser.Session.Message.Parse.{text_eq, codes}
use xiaozhi_esp32_golang_ser.Config.Settings
use xiaozhi_esp32_golang_ser.Config.Settings.{
  ServerConfig, SessionConfig, BailianConfig, ProxyConfig, DatabaseConfig, Config, Field, Problem,
  ConfigError, is_required, out_of_range, invalid_url, wrong_scheme, no_host, unsupported,
  not_greater, too_many,
}

abbrev pub second : ℕ
second = 1000000000

-- A chain of `if err := …; err != nil { return err }`.
unfoldable pub first_error : List (Option ConfigError) → Option ConfigError
first_error [] = none
first_error (none ∷ checks) = first_error checks
first_error (some e ∷ checks) = some e

abbrev pub problem : Problem → Field → Option ConfigError
problem p f = some (record { problem = p; setting = f })

unfoldable pub is_blank : Text → Bool
is_blank t = elim (trim_space t) [ [] ↦ true | ◌∷◌ c cs ↦ false ]

unfoldable pub require : Field → Text → Option ConfigError
require f t = if is_blank t then problem is_required f else none

-- `validateInt`, `validateInt64` and `validateDuration`.
unfoldable pub validate_range : Field → ℤ → ℕ → ℕ → Option ConfigError
validate_range f val min max =
    if lt_ℤ val (pos min) || lt_ℤ (pos max) val then problem out_of_range f else none

pub record Url : Type 0 where
  pub scheme : Text
  pub host : Text

unfoldable pub is_one_of : Text → List Text → Bool
is_one_of t [] = false
is_one_of t (s ∷ ss) = text_eq t s || is_one_of t ss

unfoldable pub check_url : Field → List Text → Option Url → Option ConfigError
check_url f schemes none = problem invalid_url f
check_url f schemes (some u) =
    if is_one_of u.scheme schemes
    then (if text_eq u.host [] then problem no_host f else none)
    else problem wrong_scheme f

unfoldable pub validate_session : SessionConfig → Option ConfigError
validate_session c = first_error (
    validate_range Field.hello_timeout c.hello_timeout (3 * second) (30 * second)
    ∷ validate_range Field.max_ws_text_message_bytes c.max_ws_text_message_bytes 4096 524288
    ∷ validate_range Field.max_opus_packet_bytes c.max_opus_packet_bytes 128 4096
    ∷ validate_range Field.max_listening_duration c.max_listening_duration (5 * second)
        (120 * second)
    ∷ (if lt_ℤ (pos 0) c.asr_result_timeout
        then validate_range Field.asr_result_timeout c.asr_result_timeout second (30 * second)
        else none)
    ∷ validate_range Field.asr_pcm_queue_capacity c.asr_pcm_queue_capacity 20 500
    ∷ validate_range Field.tts_pcm_queue_capacity c.tts_pcm_queue_capacity 20 500
    ∷ validate_range Field.downlink_opus_queue_capacity c.downlink_opus_queue_capacity 20 500
    ∷ validate_range Field.max_history_turns c.max_history_turns 1 50
    ∷ require Field.system_prompt c.system_prompt
    ∷ [])

unfoldable pub validate_database : DatabaseConfig → Option ConfigError
validate_database d = first_error (
    require Field.driver d.driver
    ∷ (if is_one_of d.driver (codes "sqlite" ∷ codes "mysql" ∷ codes "postgres" ∷ [])
        then none
        else problem unsupported Field.driver)
    ∷ require Field.dsn d.dsn
    ∷ validate_range Field.max_open_conns d.max_open_conns 1 1000
    ∷ validate_range Field.max_idle_conns d.max_idle_conns 1 1000
    ∷ (if lt_ℤ d.max_open_conns d.max_idle_conns
        then problem too_many Field.max_idle_conns
        else none)
    ∷ validate_range Field.connection_max_lifetime d.connection_max_lifetime 0 (86400 * second)
    ∷ validate_range Field.connection_max_idle_time d.connection_max_idle_time 0 (86400 * second)
    ∷ validate_range Field.ping_timeout d.ping_timeout 500000000 (30 * second)
    ∷ [])

unfoldable pub validate_credentials : Config → Option ConfigError
validate_credentials c = first_error (
    require Field.dash_scope_api_key c.dash_scope_api_key
    ∷ require Field.device_shared_token c.device_shared_token
    ∷ [])

module _ (parse_url : Text → Option Url) where
  -- `validateWebSocketURL`, `validateHTTPURL` and `validateProxyURL`, by the schemes that they allow.
  unfoldable pub validate_url : Field → List Text → Text → Option ConfigError
  validate_url f schemes raw_url =
      if is_blank raw_url then problem is_required f else check_url f schemes (parse_url raw_url)

  unfoldable pub validate_websocket_url : Field → Text → Option ConfigError
  unfolding validate_url
  validate_websocket_url f raw_url = validate_url f (codes "ws" ∷ codes "wss" ∷ []) raw_url

  unfoldable pub validate_http_url : Field → Text → Option ConfigError
  unfolding validate_url
  validate_http_url f raw_url = validate_url f (codes "http" ∷ codes "https" ∷ []) raw_url

  unfoldable pub validate_proxy_url : Field → Text → Option ConfigError
  unfolding validate_url
  validate_proxy_url f raw_url =
      validate_url f (codes "http" ∷ codes "https" ∷ codes "socks5" ∷ codes "socks5h" ∷ []) raw_url

  unfoldable pub validate_server : ServerConfig → Option ConfigError
  validate_server c = first_error (
      require Field.listen_addr c.listen_addr
      ∷ validate_websocket_url Field.websocket_url c.websocket_url
      ∷ validate_range Field.max_concurrent_sessions c.max_concurrent_sessions 1 10000
      ∷ validate_range Field.shutdown_timeout c.shutdown_timeout second (60 * second)
      ∷ validate_range Field.http_read_timeout c.http_read_timeout (5 * second) (60 * second)
      ∷ validate_range Field.http_write_timeout c.http_write_timeout (5 * second) (60 * second)
      ∷ validate_range Field.http_idle_timeout c.http_idle_timeout (10 * second) (300 * second)
      ∷ validate_range Field.max_http_body_bytes c.max_http_body_bytes 1024 10485760
      ∷ validate_range Field.max_http_header_bytes c.max_http_header_bytes 128 8192
      ∷ [])

  unfoldable pub validate_ai : BailianConfig → Option ConfigError
  validate_ai b = first_error (
      validate_websocket_url Field.ws_endpoint b.ws_endpoint
      ∷ validate_http_url Field.llm_endpoint b.llm_endpoint
      ∷ require Field.asr_model b.asr_model
      ∷ require Field.llm_model b.llm_model
      ∷ require Field.tts_model b.tts_model
      ∷ require Field.tts_voice b.tts_voice
      ∷ validate_range Field.asr_connect_timeout b.asr_connect_timeout (3 * second) (30 * second)
      ∷ validate_range Field.tts_connect_timeout b.tts_connect_timeout (3 * second) (30 * second)
      ∷ validate_range Field.llm_first_token_timeout b.llm_first_token_timeout (3 * second)
          (30 * second)
      ∷ validate_range Field.llm_overall_timeout b.llm_overall_timeout (10 * second) (180 * second)
      ∷ (if lt_ℤ b.llm_first_token_timeout b.llm_overall_timeout
          then none
          else problem not_greater Field.llm_overall_timeout)
      ∷ validate_range Field.tts_first_audio_timeout b.tts_first_audio_timeout (3 * second)
          (30 * second)
      ∷ validate_range Field.tts_sentence_timeout b.tts_sentence_timeout (5 * second) (60 * second)
      ∷ [])

  unfoldable pub validate_proxy : ProxyConfig → Option ConfigError
  validate_proxy p =
      if p.enabled
      then first_error
          (require Field.proxy_url p.url ∷ validate_proxy_url Field.proxy_url p.url ∷ [])
      else if text_eq p.url []
      then none
      else validate_proxy_url Field.proxy_url p.url

  unfoldable pub validate : Config → Option ConfigError
  validate c = first_error (
      validate_server c.server
      ∷ validate_session c.session
      ∷ validate_ai c.ai
      ∷ validate_proxy c.proxy
      ∷ validate_database c.database
      ∷ validate_credentials c
      ∷ [])
