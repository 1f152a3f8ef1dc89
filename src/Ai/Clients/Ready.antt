-- ===== src/Ai/Clients/Ready.antt =====
-- A configuration that passes `Validate` makes every client.
use xiaozhi_esp32_golang_ser.Prelude.{
  ℕ, ◌+◌, ◌≡◌, ◌≢◌, ◌∙◌, ◌⊎◌, refl, inr, true, Option, none, some, List, [], ◌∷◌, All, arith,
  if◌then◌else◌,
}
use xiaozhi_esp32_golang_ser.Prelude.Int.{ℤ, pos, negsuc, lt_ℤ, Between, between}
use xiaozhi_esp32_golang_ser.Session.Splitter.{trim_space}
use xiaozhi_esp32_golang_ser.Session.Splitter.Loop.{trim_space-nil}
use xiaozhi_esp32_golang_ser.Session.Message.{Text}
use xiaozhi_esp32_golang_ser.Config.{Url, validate}
use xiaozhi_esp32_golang_ser.Config.Settings.{Config, ProxyConfig}
use xiaozhi_esp32_golang_ser.Config.Bounds.{IsValid, IsValidProxy, proxied, off, ready}
use xiaozhi_esp32_golang_ser.Config.Laws.{validate_iff}
use xiaozhi_esp32_golang_ser.Ai.Clients.{
  ClientError, AsrClient, TtsClient, LlmClient, positive_or, first_missing, require_all,
  is_nonempty, with_proxy, check_overall, asr_texts, asr_client, tts_texts, tts_client, llm_texts,
  llm_client, first_token_of, overall_of, new_asr_client, new_tts_client, new_llm_client,
}

not_blank : (t : Text) → trim_space t ≢ [] → is_nonempty t ≡ true
unfolding is_nonempty
not_blank [] h = absurd (h trim_space-nil)
not_blank (c ∷ cs) h = refl

positive_or_lem : (d lo hi : ℕ) (val : ℤ) → Between (lo + 1) hi val → positive_or d val ≡ val
unfolding positive_or lt_ℤ
positive_or_lem d lo hi (pos n) (between p q) = ground arith
positive_or_lem d lo hi (negsuc n) b = elim b [ ]

present :
    (texts : List (Text × ClientError))
    → All (λ t. trim_space t.0 ≢ []) texts
    → first_missing texts ≡ none
unfolding first_missing
present [] h = refl
present (([], e) ∷ rest) h = absurd (h.0 trim_space-nil)
present ((c ∷ cs, e) ∷ rest) h = present rest h.1

none_missing :
    {A : Type 0} (texts : List (Text × ClientError)) (made : ClientError ⊎ A)
    → All (λ t. trim_space t.0 ≢ []) texts
    → require_all texts made ≡ made
unfolding require_all
none_missing texts made h = ground (arith, present texts h)

module _ (parse_url : Text → Option Url) where
  -- The proxy that a client gets: the URL of the settings, where the proxy is on.
  unfoldable pub proxy_of : ProxyConfig → Option Url
  proxy_of p = if p.enabled then parse_url p.url else none

  with_proxy_lem :
      {A : Type 0} (p : ProxyConfig) (make : Option Url → ClientError ⊎ A)
      → IsValidProxy parse_url p
      → with_proxy parse_url p make ≡ make (proxy_of p)
  unfolding with_proxy proxy_of
  with_proxy_lem p make (proxied e v) = simp (e, not_blank p.url v.not_blank, v.parses) refl
  with_proxy_lem p make (off e v) = simp e refl
  with_proxy_lem p make (ready e v) = simp e refl

  -- Every client is made, with the settings as they are and the proxy where it is on.
  pub record AreReady (c : Config) : Type 0 where
    pub asr : AsrClient
    pub asr_made : new_asr_client parse_url (some c) ≡ inr asr
    pub asr_connect : asr.connect_timeout ≡ c.ai.asr_connect_timeout
    pub asr_proxy : asr.http_proxy ≡ proxy_of c.proxy
    pub tts : TtsClient
    pub tts_made : new_tts_client parse_url (some c) ≡ inr tts
    pub tts_connect : tts.connect_timeout ≡ c.ai.tts_connect_timeout
    pub tts_first_audio : tts.first_audio_timeout ≡ c.ai.tts_first_audio_timeout
    pub tts_sentence : tts.sentence_timeout ≡ c.ai.tts_sentence_timeout
    pub tts_queue : tts.queue_capacity ≡ c.session.tts_pcm_queue_capacity
    pub tts_proxy : tts.http_proxy ≡ proxy_of c.proxy
    pub llm : LlmClient
    pub llm_made : new_llm_client parse_url (some c) ≡ inr llm
    pub llm_first_token : llm.first_token_timeout ≡ c.ai.llm_first_token_timeout
    pub llm_overall : llm.overall_timeout ≡ c.ai.llm_overall_timeout
    pub llm_proxy : llm.http_proxy ≡ proxy_of c.proxy

  asr_ready :
      (c : Config)
      → IsValid parse_url c
      → new_asr_client parse_url (some c) ≡ inr (asr_client c (proxy_of c.proxy))
  unfolding new_asr_client
  asr_ready c v =
      none_missing (asr_texts c) _ (v.api_key, (v.ai.ws_endpoint.not_blank, (v.ai.asr_model, tt)))
      ∙ with_proxy_lem c.proxy (λ p. inr (asr_client c p)) v.proxy

  tts_ready :
      (c : Config)
      → IsValid parse_url c
      → new_tts_client parse_url (some c) ≡ inr (tts_client c (proxy_of c.proxy))
  unfolding new_tts_client
  tts_ready c v =
      none_missing (tts_texts c) _
        (v.api_key, (v.ai.ws_endpoint.not_blank, (v.ai.tts_model, (v.ai.tts_voice, tt))))
      ∙ with_proxy_lem c.proxy (λ p. inr (tts_client c p)) v.proxy

  timeouts_kept :
      (c : Config)
      → IsValid parse_url c
      → (first_token_of c ≡ c.ai.llm_first_token_timeout)
        × (overall_of c ≡ c.ai.llm_overall_timeout)
  unfolding first_token_of overall_of
  timeouts_kept c v = (
    positive_or_lem _ 2999999999 _ _ v.ai.first_token,
    positive_or_lem _ 9999999999 _ _ v.ai.overall,
  )

  overall_ready :
      {A : Type 0} (c : Config) (made : ClientError ⊎ A)
      → IsValid parse_url c
      → check_overall (first_token_of c) (overall_of c) made ≡ made
  unfolding check_overall
  overall_ready c made v = ground (arith, timeouts_kept c v, v.ai.first_token_before_overall)

  llm_ready :
      (c : Config)
      → IsValid parse_url c
      → new_llm_client parse_url (some c) ≡ inr (llm_client c (proxy_of c.proxy))
  unfolding new_llm_client
  llm_ready c v =
      none_missing (llm_texts c) _ (v.api_key, (v.ai.llm_endpoint.not_blank, (v.ai.llm_model, tt)))
      ∙ overall_ready c _ v
      ∙ with_proxy_lem c.proxy (λ p. inr (llm_client c p)) v.proxy

  -- From a configuration that `Validate` accepts, the three clients are made, and each has the timeouts, the
  -- queue and the proxy of the settings: no default steps in.
  pub validate-AreReady : (c : Config) → validate parse_url c ≡ none → AreReady c
  unfolding asr_client tts_client llm_client first_token_of overall_of
  validate-AreReady c h =
      let v = (validate_iff parse_url c).0 h in
      record {
        asr = asr_client c (proxy_of c.proxy);
        asr_made = asr_ready c v;
        asr_connect = positive_or_lem _ 2999999999 _ _ v.ai.asr_connect;
        asr_proxy = refl;
        tts = tts_client c (proxy_of c.proxy);
        tts_made = tts_ready c v;
        tts_connect = positive_or_lem _ 2999999999 _ _ v.ai.tts_connect;
        tts_first_audio = positive_or_lem _ 2999999999 _ _ v.ai.first_audio;
        tts_sentence = positive_or_lem _ 4999999999 _ _ v.ai.sentence;
        tts_queue = positive_or_lem _ 19 _ _ v.session.tts_queue;
        tts_proxy = refl;
        llm = llm_client c (proxy_of c.proxy);
        llm_made = llm_ready c v;
        llm_first_token = positive_or_lem _ 2999999999 _ _ v.ai.first_token;
        llm_overall = positive_or_lem _ 9999999999 _ _ v.ai.overall;
        llm_proxy = refl;
      }
