-- ===== src/Config/Tests.antt =====
-- The theorem on the configuration at a concrete input, and a setting that is refused.
use xiaozhi_esp32_golang_ser.Prelude.{
  ℕ, ◌*◌, ◌≡◌, ◌↔◌, refl, false, Option, none, some, [], if◌then◌else◌,
}
use xiaozhi_esp32_golang_ser.Prelude.Int.{ℤ, pos, negsuc, lt_ℤ}
use xiaozhi_esp32_golang_ser.Session.Splitter.{
  trim_space, trim_right, drop_spaces, is_empty, is_space, one_of,
}
use xiaozhi_esp32_golang_ser.Session.Message.{Text}
use xiaozhi_esp32_golang_ser.Session.Message.Parse.{text_eq, codes}
use xiaozhi_esp32_golang_ser.Config.Settings.{Config, Field, DatabaseConfig, out_of_range}
use xiaozhi_esp32_golang_ser.Config.{
  Url, second, problem, validate_range, validate, validate_url, first_error, validate_server,
  validate_websocket_url, validate_http_url, is_blank, require, check_url, is_one_of,
  validate_session, validate_ai, validate_proxy, validate_database, validate_credentials,
}
use xiaozhi_esp32_golang_ser.Config.Bounds.{IsValid}
use xiaozhi_esp32_golang_ser.Config.Laws.{validate_iff}

-- It knows two URLs.
abbrev pub parse_two : Text → Option Url
parse_two t =
    if text_eq t (codes "wss://a")
    then some (record { scheme = codes "wss"; host = codes "a" })
    else if text_eq t (codes "https://a")
    then some (record { scheme = codes "https"; host = codes "a" })
    else none

abbrev seconds : ℕ → ℤ
seconds n = pos (n * second)

abbrev database : DatabaseConfig
database = record {
  driver = codes "mysql";
  max_open_conns = pos 20;
  max_idle_conns = pos 5;
  connection_max_lifetime = seconds 3600;
  connection_max_idle_time = seconds 600;
  ping_timeout = seconds 5;
  dsn = codes "dsn";
}

abbrev pub config : Config
config = record {
  server = record {
    listen_addr = codes ":8000";
    websocket_url = codes "wss://a";
    max_concurrent_sessions = pos 50;
    shutdown_timeout = seconds 10;
    http_read_timeout = seconds 10;
    http_write_timeout = seconds 10;
    http_idle_timeout = seconds 60;
    max_http_body_bytes = pos 65536;
    max_http_header_bytes = pos 8192;
  };
  session = record {
    hello_timeout = seconds 10;
    max_ws_text_message_bytes = pos 65536;
    max_opus_packet_bytes = pos 1500;
    max_listening_duration = seconds 30;
    asr_result_timeout = pos 0;
    asr_pcm_queue_capacity = pos 100;
    tts_pcm_queue_capacity = pos 100;
    downlink_opus_queue_capacity = pos 100;
    max_history_turns = pos 10;
    system_prompt = codes "hello";
  };
  ai = record {
    ws_endpoint = codes "wss://a";
    llm_endpoint = codes "https://a";
    asr_model = codes "asr";
    llm_model = codes "llm";
    tts_model = codes "tts";
    tts_voice = codes "voice";
    asr_connect_timeout = seconds 10;
    tts_connect_timeout = seconds 10;
    llm_first_token_timeout = seconds 15;
    llm_overall_timeout = seconds 90;
    tts_first_audio_timeout = seconds 10;
    tts_sentence_timeout = seconds 30;
  };
  proxy = record { enabled = false; url = [] };
  database = database;
  dash_scope_api_key = codes "key";
  device_shared_token = codes "token";
}

validate_iff_example : (validate parse_two config ≡ none) ↔ IsValid parse_two config
validate_iff_example = validate_iff parse_two config

negative_lifetime :
    validate_range Field.connection_max_lifetime (negsuc 0) 0 10
    ≡ problem out_of_range Field.connection_max_lifetime
unfolding validate_range lt_ℤ
negative_lifetime = refl

pub config_passes : validate parse_two config ≡ none
unfolding validate first_error validate_server validate_websocket_url validate_http_url validate_url
    is_blank require validate_range lt_ℤ check_url is_one_of text_eq validate_session validate_ai
    validate_proxy validate_database validate_credentials trim_space trim_right drop_spaces is_empty
    is_space one_of
config_passes = refl
