-- ===== src/Config/Bounds.antt =====
-- What a configuration that passes is known to hold.
use xiaozhi_esp32_golang_ser.Prelude.{◌*◌, ◌≡◌, ◌≢◌, ◌⊎◌, true, false, Option, some, List, [], ◌∷◌}
use xiaozhi_esp32_golang_ser.Prelude.Int.{ℤ, pos, lt_ℤ, Between}
use xiaozhi_esp32_golang_ser.Session.Splitter.{trim_space}
use xiaozhi_esp32_golang_ser.Session.Message.{Text}
use xiaozhi_esp32_golang_ser.Session.Message.Parse.{codes}
use xiaozhi_esp32_golang_ser.Config.Settings.{
  ServerConfig, SessionConfig, BailianConfig, ProxyConfig, DatabaseConfig, Config,
}
use xiaozhi_esp32_golang_ser.Config.{second, Url}

-- `t` is one of the texts.
abbrev pub IsOneOf : Text → List Text → Type 0
IsOneOf t [] = ⊥
IsOneOf t (s ∷ ss) = (t ≡ s) ⊎ IsOneOf t ss

pub record IsUrl (parse_url : Text → Option Url) (schemes : List Text) (raw_url : Text)
    : Type 0 where
  pub not_blank : trim_space raw_url ≢ []
  pub url : Url
  pub parses : parse_url raw_url ≡ some url
  pub scheme : IsOneOf url.scheme schemes
  pub host : url.host ≢ []

abbrev pub proxy_schemes : List Text
proxy_schemes = codes "http" ∷ codes "https" ∷ codes "socks5" ∷ codes "socks5h" ∷ []

-- A setting that is not positive is not checked.
abbrev pub UnsetOr : ℤ → Type 0 → Type 0
UnsetOr val P = (lt_ℤ (pos 0) val ≡ false) ⊎ ((lt_ℤ (pos 0) val ≡ true) × P)

pub record IsValidSession (c : SessionConfig) : Type 0 where
  pub hello_timeout : Between (3 * second) (30 * second) c.hello_timeout
  pub text_bytes : Between 4096 524288 c.max_ws_text_message_bytes
  pub opus_bytes : Between 128 4096 c.max_opus_packet_bytes
  pub listening : Between (5 * second) (120 * second) c.max_listening_duration
  pub asr_result : UnsetOr c.asr_result_timeout (Between second (30 * second) c.asr_result_timeout)
  pub asr_queue : Between 20 500 c.asr_pcm_queue_capacity
  pub tts_queue : Between 20 500 c.tts_pcm_queue_capacity
  pub downlink_queue : Between 20 500 c.downlink_opus_queue_capacity
  pub history_turns : Between 1 50 c.max_history_turns
  pub prompt : trim_space c.system_prompt ≢ []

pub record IsValidDatabase (d : DatabaseConfig) : Type 0 where
  pub driver_not_blank : trim_space d.driver ≢ []
  pub driver : IsOneOf d.driver (codes "sqlite" ∷ codes "mysql" ∷ codes "postgres" ∷ [])
  pub dsn : trim_space d.dsn ≢ []
  pub open_conns : Between 1 1000 d.max_open_conns
  pub idle_conns : Between 1 1000 d.max_idle_conns
  pub idle_at_most_open : lt_ℤ d.max_open_conns d.max_idle_conns ≡ false
  pub lifetime : Between 0 (86400 * second) d.connection_max_lifetime
  pub idle_time : Between 0 (86400 * second) d.connection_max_idle_time
  pub ping : Between 500000000 (30 * second) d.ping_timeout

module _ (parse_url : Text → Option Url) where
  pub record IsValidServer (c : ServerConfig) : Type 0 where
    pub listen_addr : trim_space c.listen_addr ≢ []
    pub websocket_url : IsUrl parse_url (codes "ws" ∷ codes "wss" ∷ []) c.websocket_url
    pub sessions : Between 1 10000 c.max_concurrent_sessions
    pub shutdown : Between second (60 * second) c.shutdown_timeout
    pub read_timeout : Between (5 * second) (60 * second) c.http_read_timeout
    pub write_timeout : Between (5 * second) (60 * second) c.http_write_timeout
    pub idle_timeout : Between (10 * second) (300 * second) c.http_idle_timeout
    pub body_bytes : Between 1024 10485760 c.max_http_body_bytes
    pub header_bytes : Between 128 8192 c.max_http_header_bytes

  pub record IsValidAi (b : BailianConfig) : Type 0 where
    pub ws_endpoint : IsUrl parse_url (codes "ws" ∷ codes "wss" ∷ []) b.ws_endpoint
    pub llm_endpoint : IsUrl parse_url (codes "http" ∷ codes "https" ∷ []) b.llm_endpoint
    pub asr_model : trim_space b.asr_model ≢ []
    pub llm_model : trim_space b.llm_model ≢ []
    pub tts_model : trim_space b.tts_model ≢ []
    pub tts_voice : trim_space b.tts_voice ≢ []
    pub asr_connect : Between (3 * second) (30 * second) b.asr_connect_timeout
    pub tts_connect : Between (3 * second) (30 * second) b.tts_connect_timeout
    pub first_token : Between (3 * second) (30 * second) b.llm_first_token_timeout
    pub overall : Between (10 * second) (180 * second) b.llm_overall_timeout
    pub first_token_before_overall : lt_ℤ b.llm_first_token_timeout b.llm_overall_timeout ≡ true
    pub first_audio : Between (3 * second) (30 * second) b.tts_first_audio_timeout
    pub sentence : Between (5 * second) (60 * second) b.tts_sentence_timeout

  -- A proxy that is on has a URL; one that is off has a URL that would do, or none.
  pub data IsValidProxy (p : ProxyConfig) : Type 0 where
    proxied : p.enabled ≡ true → IsUrl parse_url proxy_schemes p.url → IsValidProxy p
    off : p.enabled ≡ false → p.url ≡ [] → IsValidProxy p
    ready : p.enabled ≡ false → IsUrl parse_url proxy_schemes p.url → IsValidProxy p

  pub record IsValid (c : Config) : Type 0 where
    pub server : IsValidServer c.server
    pub session : IsValidSession c.session
    pub ai : IsValidAi c.ai
    pub proxy : IsValidProxy c.proxy
    pub database : IsValidDatabase c.database
    pub api_key : trim_space c.dash_scope_api_key ≢ []
    pub token : trim_space c.device_shared_token ≢ []
