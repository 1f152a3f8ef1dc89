-- ===== src/Config/Plain.antt =====
-- The parts of a configuration that have no URL: the session and the database.
use xiaozhi_esp32_golang_ser.Prelude.{◌≡◌, ◌↔◌, none, some, List, if◌then◌else◌}
use xiaozhi_esp32_golang_ser.Session.Message.{Text}
use xiaozhi_esp32_golang_ser.Config.Settings.{SessionConfig, DatabaseConfig, ConfigError}
use xiaozhi_esp32_golang_ser.Config.{is_one_of, validate_session, validate_database}
use xiaozhi_esp32_golang_ser.Config.Bounds.{IsOneOf, IsValidSession, IsValidDatabase}
use xiaozhi_esp32_golang_ser.Config.Checks.{
  validate_range_iff, require_iff, first_error_iff, when_iff, must_iff, must_not_iff, is_one_of_iff,
}

pub session_sound : (c : SessionConfig) → validate_session c ≡ none → IsValidSession c
unfolding validate_session
session_sound c h =
    let (h0, (h1, (h2, (h3, (h4, (h5, (h6, (h7, (h8, (h9, _)))))))))) = (first_error_iff _).0 h in
    record {
      hello_timeout = (validate_range_iff _ _ _ _).0 h0;
      text_bytes = (validate_range_iff _ _ _ _).0 h1;
      opus_bytes = (validate_range_iff _ _ _ _).0 h2;
      listening = (validate_range_iff _ _ _ _).0 h3;
      asr_result = (when_iff _ _ (validate_range_iff _ _ _ _)).0 h4;
      asr_queue = (validate_range_iff _ _ _ _).0 h5;
      tts_queue = (validate_range_iff _ _ _ _).0 h6;
      downlink_queue = (validate_range_iff _ _ _ _).0 h7;
      history_turns = (validate_range_iff _ _ _ _).0 h8;
      prompt = (require_iff _ _).0 h9;
    }

pub session_complete : (c : SessionConfig) → IsValidSession c → validate_session c ≡ none
unfolding validate_session
session_complete c v = (first_error_iff _).1 (
  (validate_range_iff _ _ _ _).1 v.hello_timeout,
  (
    (validate_range_iff _ _ _ _).1 v.text_bytes,
    (
      (validate_range_iff _ _ _ _).1 v.opus_bytes,
      (
        (validate_range_iff _ _ _ _).1 v.listening,
        (
          (when_iff _ _ (validate_range_iff _ _ _ _)).1 v.asr_result,
          (
            (validate_range_iff _ _ _ _).1 v.asr_queue,
            (
              (validate_range_iff _ _ _ _).1 v.tts_queue,
              (
                (validate_range_iff _ _ _ _).1 v.downlink_queue,
                (
                  (validate_range_iff _ _ _ _).1 v.history_turns,
                  ((require_iff _ _).1 v.prompt, tt),
                ),
              ),
            ),
          ),
        ),
      ),
    ),
  ),
)

driver_iff :
    (t : Text) (ss : List Text) (e : ConfigError)
    → ((if is_one_of t ss then none else some e) ≡ none) ↔ IsOneOf t ss
driver_iff t ss e = (
  λ h. (is_one_of_iff t ss).0 ((must_iff _ e).0 h),
  λ v. (must_iff _ e).1 ((is_one_of_iff t ss).1 v),
)

pub database_sound : (d : DatabaseConfig) → validate_database d ≡ none → IsValidDatabase d
unfolding validate_database
database_sound d h =
    let (h0, (h1, (h2, (h3, (h4, (h5, (h6, (h7, (h8, _))))))))) = (first_error_iff _).0 h in
    record {
      driver_not_blank = (require_iff _ _).0 h0;
      driver = (driver_iff _ _ _).0 h1;
      dsn = (require_iff _ _).0 h2;
      open_conns = (validate_range_iff _ _ _ _).0 h3;
      idle_conns = (validate_range_iff _ _ _ _).0 h4;
      idle_at_most_open = (must_not_iff _ _).0 h5;
      lifetime = (validate_range_iff _ _ _ _).0 h6;
      idle_time = (validate_range_iff _ _ _ _).0 h7;
      ping = (validate_range_iff _ _ _ _).0 h8;
    }

pub database_complete : (d : DatabaseConfig) → IsValidDatabase d → validate_database d ≡ none
unfolding validate_database
database_complete d v = (first_error_iff _).1 (
  (require_iff _ _).1 v.driver_not_blank,
  (
    (driver_iff _ _ _).1 v.driver,
    (
      (require_iff _ _).1 v.dsn,
      (
        (validate_range_iff _ _ _ _).1 v.open_conns,
        (
          (validate_range_iff _ _ _ _).1 v.idle_conns,
          (
            (must_not_iff _ _).1 v.idle_at_most_open,
            (
              (validate_range_iff _ _ _ _).1 v.lifetime,
              (
                (validate_range_iff _ _ _ _).1 v.idle_time,
                ((validate_range_iff _ _ _ _).1 v.ping, tt),
              ),
            ),
          ),
        ),
      ),
    ),
  ),
)
