-- ===== src/Config/Settings.antt =====
-- The settings of internal/config/config.go, without their YAML names. A Go integer is a ℤ, a duration
-- its number of nanoseconds.
use xiaozhi_esp32_golang_ser.Prelude.{Bool}
use xiaozhi_esp32_golang_ser.Prelude.Int.{ℤ}
use xiaozhi_esp32_golang_ser.Session.Message.{Text}

pub record ServerConfig : Type 0 where
  pub listen_addr : Text
  pub websocket_url : Text
  pub max_concurrent_sessions : ℤ
  pub shutdown_timeout : ℤ
  pub http_read_timeout : ℤ
  pub http_write_timeout : ℤ
  pub http_idle_timeout : ℤ
  pub max_http_body_bytes : ℤ
  pub max_http_header_bytes : ℤ

pub record SessionConfig : Type 0 where
  pub hello_timeout : ℤ
  pub max_ws_text_message_bytes : ℤ
  pub max_opus_packet_bytes : ℤ
  pub max_listening_duration : ℤ
  pub asr_result_timeout : ℤ
  pub asr_pcm_queue_capacity : ℤ
  pub tts_pcm_queue_capacity : ℤ
  pub downlink_opus_queue_capacity : ℤ
  pub max_history_turns : ℤ
  pub system_prompt : Text

pub record BailianConfig : Type 0 where
  pub ws_endpoint : Text
  pub llm_endpoint : Text
  pub asr_model : Text
  pub llm_model : Text
  pub tts_model : Text
  pub tts_voice : Text
  pub asr_connect_timeout : ℤ
  pub tts_connect_timeout : ℤ
  pub llm_first_token_timeout : ℤ
  pub llm_overall_timeout : ℤ
  pub tts_first_audio_timeout : ℤ
  pub tts_sentence_timeout : ℤ

pub record ProxyConfig : Type 0 where
  pub enabled : Bool
  pub url : Text

pub record DatabaseConfig : Type 0 where
  pub driver : Text
  pub max_open_conns : ℤ
  pub max_idle_conns : ℤ
  pub connection_max_lifetime : ℤ
  pub connection_max_idle_time : ℤ
  pub ping_timeout : ℤ
  pub dsn : Text

pub record Config : Type 0 where
  pub server : ServerConfig
  pub session : SessionConfig
  pub ai : BailianConfig
  pub proxy : ProxyConfig
  pub database : DatabaseConfig
  pub dash_scope_api_key : Text
  pub device_shared_token : Text

-- The name of a setting, for an error.
pub data Field : Type 0 where
  listen_addr websocket_url max_concurrent_sessions shutdown_timeout http_read_timeout : Field
  http_write_timeout http_idle_timeout max_http_body_bytes max_http_header_bytes : Field
  hello_timeout max_ws_text_message_bytes max_opus_packet_bytes max_listening_duration : Field
  asr_result_timeout asr_pcm_queue_capacity tts_pcm_queue_capacity : Field
  downlink_opus_queue_capacity max_history_turns system_prompt ws_endpoint llm_endpoint : Field
  asr_model llm_model tts_model tts_voice asr_connect_timeout tts_connect_timeout : Field
  llm_first_token_timeout llm_overall_timeout tts_first_audio_timeout tts_sentence_timeout : Field
  proxy_url driver dsn max_open_conns max_idle_conns connection_max_lifetime : Field
  connection_max_idle_time ping_timeout dash_scope_api_key device_shared_token : Field

pub data Problem : Type 0 where
  is_required out_of_range invalid_url wrong_scheme no_host unsupported : Problem
  not_greater too_many : Problem

pub record ConfigError : Type 0 where
  pub problem : Problem
  pub setting : Field
