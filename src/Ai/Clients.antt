-- ===== src/Ai/Clients.antt =====
-- The clients of internal/ai/bailian as they are built from the configuration: `NewASRClient` (asr.go),
-- `NewTTSClient` (tts.go) and `NewLLMClient` (llm.go). `url.Parse` is a parameter, as for `Validate`. The HTTP client
-- is the URL of its proxy, where it has one. A duration is its number of nanoseconds.
pub mod Request
mod Ready
mod Tests
use xiaozhi_esp32_golang_ser.Prelude.{
  ℕ, ◌*◌, Bool, true, false, ◌&&◌, not, Option, none, some, List, [], ◌∷◌, ◌⊎◌, inl, inr,
  if◌then◌else◌,
}
use xiaozhi_esp32_golang_ser.Prelude.Int.{ℤ, pos, lt_ℤ}
use xiaozhi_esp32_golang_ser.Session.Message.{Text}
use xiaozhi_esp32_golang_ser.Config.{Url, second}
use xiaozhi_esp32_golang_ser.Config.Settings.{Config, ProxyConfig}

pub data ClientError : Type 0 where
  no_config no_api_key no_endpoint no_model no_voice invalid_proxy overall_not_greater : ClientError

pub record AsrClient : Type 0 where
  pub endpoint : Text
  pub api_key : Text
  pub model : Text
  pub connect_timeout : ℤ
  pub http_proxy : Option Url

pub record TtsClient : Type 0 where
  pub endpoint : Text
  pub api_key : Text
  pub model : Text
  pub voice : Text
  pub connect_timeout : ℤ
  pub first_audio_timeout : ℤ
  pub sentence_timeout : ℤ
  pub queue_capacity : ℤ
  pub http_proxy : Option Url

pub record LlmClient : Type 0 where
  pub endpoint : Text
  pub api_key : Text
  pub model : Text
  pub first_token_timeout : ℤ
  pub overall_timeout : ℤ
  pub http_proxy : Option Url

-- A setting that is not positive has a default.
unfoldable pub positive_or : ℕ → ℤ → ℤ
positive_or default val = if lt_ℤ (pos 0) val then val else pos default

-- The first of the texts that is empty gives its error.
unfoldable pub first_missing : List (Text × ClientError) → Option ClientError
first_missing [] = none
first_missing (([], e) ∷ rest) = some e
first_missing ((c ∷ cs, e) ∷ rest) = first_missing rest

-- What is left to do where no text is missing.
unfoldable pub require_all :
    {A : Type 0} → List (Text × ClientError) → ClientError ⊎ A → ClientError ⊎ A
unfolding first_missing
require_all texts made = elim (first_missing texts) [ some e ↦ inl e | none ↦ made ]

unfoldable pub is_nonempty : Text → Bool
is_nonempty [] = false
is_nonempty (c ∷ cs) = true

-- The texts that each client needs, and what it is made of.
unfoldable pub asr_texts : Config → List (Text × ClientError)
asr_texts c =
    (c.dash_scope_api_key, no_api_key)
    ∷ (c.ai.ws_endpoint, no_endpoint)
    ∷ (c.ai.asr_model, no_model)
    ∷ []

unfoldable pub asr_client : Config → Option Url → AsrClient
unfolding positive_or
asr_client c p = record {
  endpoint = c.ai.ws_endpoint;
  api_key = c.dash_scope_api_key;
  model = c.ai.asr_model;
  connect_timeout = positive_or (10 * second) c.ai.asr_connect_timeout;
  http_proxy = p;
}

unfoldable pub tts_texts : Config → List (Text × ClientError)
tts_texts c =
    (c.dash_scope_api_key, no_api_key)
    ∷ (c.ai.ws_endpoint, no_endpoint)
    ∷ (c.ai.tts_model, no_model)
    ∷ (c.ai.tts_voice, no_voice)
    ∷ []

unfoldable pub tts_client : Config → Option Url → TtsClient
unfolding positive_or
tts_client c p = record {
  endpoint = c.ai.ws_endpoint;
  api_key = c.dash_scope_api_key;
  model = c.ai.tts_model;
  voice = c.ai.tts_voice;
  connect_timeout = positive_or (10 * second) c.ai.tts_connect_timeout;
  first_audio_timeout = positive_or (5 * second) c.ai.tts_first_audio_timeout;
  sentence_timeout = positive_or (20 * second) c.ai.tts_sentence_timeout;
  queue_capacity = positive_or 100 c.session.tts_pcm_queue_capacity;
  http_proxy = p;
}

unfoldable pub llm_texts : Config → List (Text × ClientError)
llm_texts c =
    (c.dash_scope_api_key, no_api_key)
    ∷ (c.ai.llm_endpoint, no_endpoint)
    ∷ (c.ai.llm_model, no_model)
    ∷ []

unfoldable pub first_token_of : Config → ℤ
unfolding positive_or
first_token_of c = positive_or (15 * second) c.ai.llm_first_token_timeout

unfoldable pub overall_of : Config → ℤ
unfolding positive_or
overall_of c = positive_or (60 * second) c.ai.llm_overall_timeout

unfoldable pub llm_client : Config → Option Url → LlmClient
unfolding first_token_of overall_of
llm_client c p = record {
  endpoint = c.ai.llm_endpoint;
  api_key = c.dash_scope_api_key;
  model = c.ai.llm_model;
  first_token_timeout = first_token_of c;
  overall_timeout = overall_of c;
  http_proxy = p;
}

-- The overall timeout must exceed that of the first token.
unfoldable pub check_overall : {A : Type 0} → ℤ → ℤ → ClientError ⊎ A → ClientError ⊎ A
check_overall first_token overall made =
    if lt_ℤ first_token overall then made else inl overall_not_greater

module _ (parse_url : Text → Option Url) where
  -- The proxy of the HTTP client goes to the client, where its URL is read.
  unfoldable pub with_proxy :
      {A : Type 0} → ProxyConfig → (Option Url → ClientError ⊎ A) → ClientError ⊎ A
  unfolding is_nonempty
  with_proxy p make =
      if p.enabled && is_nonempty p.url
      then elim (parse_url p.url) [ none ↦ inl invalid_proxy | some u ↦ make (some u) ]
      else make none

  unfoldable pub new_asr_client : Option Config → ClientError ⊎ AsrClient
  unfolding require_all asr_texts asr_client with_proxy
  new_asr_client none = inl no_config
  new_asr_client (some c) =
      require_all
        ((c.dash_scope_api_key, no_api_key)
          ∷ (c.ai.ws_endpoint, no_endpoint)
          ∷ (c.ai.asr_model, no_model)
          ∷ [])
        (with_proxy c.proxy (λ p. inr (record {
          endpoint = c.ai.ws_endpoint;
          api_key = c.dash_scope_api_key;
          model = c.ai.asr_model;
          connect_timeout = positive_or (10 * second) c.ai.asr_connect_timeout;
          http_proxy = p;
        })))

  unfoldable pub new_tts_client : Option Config → ClientError ⊎ TtsClient
  unfolding require_all tts_texts tts_client with_proxy
  new_tts_client none = inl no_config
  new_tts_client (some c) =
      require_all
        ((c.dash_scope_api_key, no_api_key)
          ∷ (c.ai.ws_endpoint, no_endpoint)
          ∷ (c.ai.tts_model, no_model)
          ∷ (c.ai.tts_voice, no_voice)
          ∷ [])
        (with_proxy c.proxy (λ p. inr (record {
          endpoint = c.ai.ws_endpoint;
          api_key = c.dash_scope_api_key;
          model = c.ai.tts_model;
          voice = c.ai.tts_voice;
          connect_timeout = positive_or (10 * second) c.ai.tts_connect_timeout;
          first_audio_timeout = positive_or (5 * second) c.ai.tts_first_audio_timeout;
          sentence_timeout = positive_or (20 * second) c.ai.tts_sentence_timeout;
          queue_capacity = positive_or 100 c.session.tts_pcm_queue_capacity;
          http_proxy = p;
        })))

  unfoldable pub new_llm_client : Option Config → ClientError ⊎ LlmClient
  unfolding require_all llm_texts llm_client first_token_of overall_of with_proxy check_overall
  new_llm_client none = inl no_config
  new_llm_client (some c) = require_all (llm_texts c) (
      check_overall (first_token_of c) (overall_of c)
        (with_proxy c.proxy (λ p. inr (llm_client c p))))
