-- ===== src/Config/Laws.antt =====
-- Which configurations pass.
use xiaozhi_esp32_golang_ser.Prelude.{
  ◌≡◌, ◌≢◌, ◌⊎◌, ◌↔◌, inl, inr, refl, Option, none, [], ◌∷◌, arith, Bool-cases, if◌then◌else◌,
}
use xiaozhi_esp32_golang_ser.Session.Splitter.{trim_space}
use xiaozhi_esp32_golang_ser.Session.Message.{Text}
use xiaozhi_esp32_golang_ser.Session.Message.Parse.{text_eq}
use xiaozhi_esp32_golang_ser.Session.Message.TextLaws.{text_eq_iff}
use xiaozhi_esp32_golang_ser.Config.Settings.{
  ServerConfig, BailianConfig, ProxyConfig, Config, Field,
}
use xiaozhi_esp32_golang_ser.Config.{
  first_error, require, Url, validate_websocket_url, validate_http_url, validate_proxy_url,
  validate_server, validate_ai, validate_proxy, validate_credentials, validate,
}
use xiaozhi_esp32_golang_ser.Config.Bounds.{
  IsUrl, IsValidServer, IsValidAi, IsValidProxy, IsValid, proxy_schemes, proxied, off, ready,
}
use xiaozhi_esp32_golang_ser.Config.Checks.{
  validate_range_iff, require_iff, first_error_iff, must_iff, validate_url_iff,
}
use xiaozhi_esp32_golang_ser.Config.Plain.{
  session_sound, session_complete, database_sound, database_complete,
}

module _ (parse_url : Text → Option Url) where
  server_sound : (c : ServerConfig) → validate_server parse_url c ≡ none → IsValidServer parse_url c
  unfolding validate_server validate_websocket_url
  server_sound c h =
      let (h0, (h1, (h2, (h3, (h4, (h5, (h6, (h7, (h8, _))))))))) = (first_error_iff _).0 h in
      record {
        listen_addr = (require_iff _ _).0 h0;
        websocket_url = (validate_url_iff parse_url _ _ _).0 h1;
        sessions = (validate_range_iff _ _ _ _).0 h2;
        shutdown = (validate_range_iff _ _ _ _).0 h3;
        read_timeout = (validate_range_iff _ _ _ _).0 h4;
        write_timeout = (validate_range_iff _ _ _ _).0 h5;
        idle_timeout = (validate_range_iff _ _ _ _).0 h6;
        body_bytes = (validate_range_iff _ _ _ _).0 h7;
        header_bytes = (validate_range_iff _ _ _ _).0 h8;
      }

  server_complete :
      (c : ServerConfig) → IsValidServer parse_url c → validate_server parse_url c ≡ none
  unfolding validate_server validate_websocket_url
  server_complete c v = (first_error_iff _).1 (
    (require_iff _ _).1 v.listen_addr,
    (
      (validate_url_iff parse_url _ _ _).1 v.websocket_url,
      (
        (validate_range_iff _ _ _ _).1 v.sessions,
        (
          (validate_range_iff _ _ _ _).1 v.shutdown,
          (
            (validate_range_iff _ _ _ _).1 v.read_timeout,
            (
              (validate_range_iff _ _ _ _).1 v.write_timeout,
              (
                (validate_range_iff _ _ _ _).1 v.idle_timeout,
                (
                  (validate_range_iff _ _ _ _).1 v.body_bytes,
                  ((validate_range_iff _ _ _ _).1 v.header_bytes, tt),
                ),
              ),
            ),
          ),
        ),
      ),
    ),
  )

  ai_sound : (b : BailianConfig) → validate_ai parse_url b ≡ none → IsValidAi parse_url b
  unfolding validate_ai validate_websocket_url validate_http_url
  ai_sound b h =
      let (h0, (h1, (h2, (h3, (h4, (h5, (h6, (h7, (h8, (h9, (h10, (h11, (h12, _))))))))))))) =
        (first_error_iff _).0 h in
      record {
        ws_endpoint = (validate_url_iff parse_url _ _ _).0 h0;
        llm_endpoint = (validate_url_iff parse_url _ _ _).0 h1;
        asr_model = (require_iff _ _).0 h2;
        llm_model = (require_iff _ _).0 h3;
        tts_model = (require_iff _ _).0 h4;
        tts_voice = (require_iff _ _).0 h5;
        asr_connect = (validate_range_iff _ _ _ _).0 h6;
        tts_connect = (validate_range_iff _ _ _ _).0 h7;
        first_token = (validate_range_iff _ _ _ _).0 h8;
        overall = (validate_range_iff _ _ _ _).0 h9;
        first_token_before_overall = (must_iff _ _).0 h10;
        first_audio = (validate_range_iff _ _ _ _).0 h11;
        sentence = (validate_range_iff _ _ _ _).0 h12;
      }

  ai_complete : (b : BailianConfig) → IsValidAi parse_url b → validate_ai parse_url b ≡ none
  unfolding validate_ai validate_websocket_url validate_http_url
  ai_complete b v = (first_error_iff _).1 (
    (validate_url_iff parse_url _ _ _).1 v.ws_endpoint,
    (
      (validate_url_iff parse_url _ _ _).1 v.llm_endpoint,
      (
        (require_iff _ _).1 v.asr_model,
        (
          (require_iff _ _).1 v.llm_model,
          (
            (require_iff _ _).1 v.tts_model,
            (
              (require_iff _ _).1 v.tts_voice,
              (
                (validate_range_iff _ _ _ _).1 v.asr_connect,
                (
                  (validate_range_iff _ _ _ _).1 v.tts_connect,
                  (
                    (validate_range_iff _ _ _ _).1 v.first_token,
                    (
                      (validate_range_iff _ _ _ _).1 v.overall,
                      (
                        (must_iff _ _).1 v.first_token_before_overall,
                        (
                          (validate_range_iff _ _ _ _).1 v.first_audio,
                          ((validate_range_iff _ _ _ _).1 v.sentence, tt),
                        ),
                      ),
                    ),
                  ),
                ),
              ),
            ),
          ),
        ),
      ),
    ),
  )

  on_iff :
      (f : Field) (url : Text)
      → (first_error (require f url ∷ validate_proxy_url parse_url f url ∷ []) ≡ none)
        ↔ IsUrl parse_url proxy_schemes url
  unfolding validate_proxy_url
  on_iff f url = (
    (λ h. (validate_url_iff parse_url f _ url).0 ((first_error_iff _).0 h).1.0),
    (λ v.
        (first_error_iff _).1
          ((require_iff f url).1 v.not_blank, ((validate_url_iff parse_url f _ url).1 v, tt))),
  )

  off_iff :
      (f : Field) (url : Text)
      → ((if text_eq url [] then none else validate_proxy_url parse_url f url) ≡ none)
        ↔ ((url ≡ []) ⊎ IsUrl parse_url proxy_schemes url)
  unfolding validate_proxy_url
  off_iff f url = (
    λ h. ground (arith, text_eq_iff url [], validate_url_iff parse_url f proxy_schemes url),
    λ v. ground (arith, text_eq_iff url [], validate_url_iff parse_url f proxy_schemes url),
  )

  proxy_sound : (p : ProxyConfig) → validate_proxy parse_url p ≡ none → IsValidProxy parse_url p
  unfolding validate_proxy
  proxy_sound p h = elim (Bool-cases p.enabled) [
    | inl e ↦ proxied e ((on_iff Field.proxy_url p.url).0 (ground arith))
    | inr e ↦ elim ((off_iff Field.proxy_url p.url).0 (ground arith)) [
      | inl q ↦ off e q
      | inr q ↦ ready e q
    ]
  ]

  proxy_complete : (p : ProxyConfig) → IsValidProxy parse_url p → validate_proxy parse_url p ≡ none
  unfolding validate_proxy
  proxy_complete p (proxied e v) = simp (e, (on_iff Field.proxy_url p.url).1 v) refl
  proxy_complete p (off e v) = simp (e, (off_iff Field.proxy_url p.url).1 (inl v)) refl
  proxy_complete p (ready e v) = simp (e, (off_iff Field.proxy_url p.url).1 (inr v)) refl

  credentials_iff :
      (c : Config)
      → (validate_credentials c ≡ none)
        ↔ ((trim_space c.dash_scope_api_key ≢ []) × (trim_space c.device_shared_token ≢ []))
  unfolding validate_credentials
  credentials_iff c = (
    (λ h. (
      (require_iff _ _).0 ((first_error_iff _).0 h).0,
      (require_iff _ _).0 ((first_error_iff _).0 h).1.0,
    )),
    (λ v. (first_error_iff _).1 ((require_iff _ _).1 v.0, ((require_iff _ _).1 v.1, tt))),
  )

  config_sound : (c : Config) → validate parse_url c ≡ none → IsValid parse_url c
  unfolding validate
  config_sound c h =
      let (s, (t, (a, (p, (d, (k, _)))))) = (first_error_iff _).0 h in
      record {
        server = server_sound c.server s;
        session = session_sound c.session t;
        ai = ai_sound c.ai a;
        proxy = proxy_sound c.proxy p;
        database = database_sound c.database d;
        api_key = ((credentials_iff c).0 k).0;
        token = ((credentials_iff c).0 k).1;
      }

  config_complete : (c : Config) → IsValid parse_url c → validate parse_url c ≡ none
  unfolding validate
  config_complete c v = (first_error_iff _).1 (
    server_complete c.server v.server,
    (
      session_complete c.session v.session,
      (
        ai_complete c.ai v.ai,
        (
          proxy_complete c.proxy v.proxy,
          (
            database_complete c.database v.database,
            ((credentials_iff c).1 (v.api_key, v.token), tt),
          ),
        ),
      ),
    ),
  )

  -- `Validate` returns no error exactly if every setting keeps its bounds: each number lies within its
  -- range, each endpoint is a URL with an allowed scheme and a host, no name is blank, the LLM's overall
  -- timeout exceeds that of its first token, and no more connections may idle than be open.
  pub validate_iff : (c : Config) → (validate parse_url c ≡ none) ↔ IsValid parse_url c
  validate_iff c = (config_sound c, config_complete c)
