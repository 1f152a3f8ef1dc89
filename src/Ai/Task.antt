-- ===== src/Ai/Task.antt =====
-- The task protocol that the speech clients of internal/ai/bailian share (asr.go, tts.go): the messages of
-- the service and the opening of a stream. JSON is not modelled as bytes: a text frame that
-- `json.Unmarshal` reads is its `Header` and the fields the clients use.
use xiaozhi_esp32_golang_ser.Prelude.{
  ℕ, Bool, true, false, Option, none, some, [], ◌∷◌, ◌⊎◌, inl, inr,
}
use xiaozhi_esp32_golang_ser.Session.Message.{Text}

-- The texts of `event` and `action` that the clients compare with.
pub data EventName : Type 0 where
  blank task_started task_finished task_failed result_generated : EventName
  unknown_event : Text → EventName

pub record Header : Type 0 where
  pub action : EventName
  pub event : EventName
  pub error_code : Text
  pub error_message : Text

unfoldable pub event_of : Header → EventName
event_of h = elim h.event [ blank ↦ h.action | e ↦ e ]

-- A text where it is there; `none` stands for the client's own text in its place.
unfoldable pub given : Text → Option Text
given [] = none
given (c ∷ cs) = some (c ∷ cs)

pub data TaskError : Type 0 where
  canceled deadline_exceeded : TaskError
  first_audio_timeout sentence_timeout : TaskError
  stream_closed input_finished : TaskError
  read_failed write_failed : ℕ → TaskError
  task_rejected : Option Text → Option Text → TaskError

unfoldable pub rejection : Header → TaskError
unfolding given
rejection h = task_rejected (given h.error_code) (given h.error_message)

-- What reading the answer to `run-task` gives.
pub data FirstMessage : Type 0 where
  unreadable : ℕ → FirstMessage
  not_text malformed : FirstMessage
  message : Header → FirstMessage

pub data CloseStatus : Type 0 where
  normal_closure internal_error unsupported_data policy_violation : CloseStatus

pub data StartError : Type 0 where
  dial_failed run_task_failed unreadable_answer : ℕ → StartError
  text_expected invalid_json : StartError
  start_rejected : TaskError → StartError
  unexpected_event : EventName → StartError

unfoldable pub check_event : Header → Option (CloseStatus × StartError)
unfolding event_of rejection
check_event h = elim (event_of h) [
  | task_started ↦ none
  | task_failed ↦ some (normal_closure, start_rejected (rejection h))
  | e ↦ some (policy_violation, unexpected_event e)
]

-- What is wrong with the answer, and the status the connection is closed with for it.
unfoldable pub check_started : FirstMessage → Option (CloseStatus × StartError)
unfolding check_event
check_started (unreadable e) = some (internal_error, unreadable_answer e)
check_started not_text = some (unsupported_data, text_expected)
check_started malformed = some (policy_violation, invalid_json)
check_started (message h) = check_event h

-- `CreateStream` of both clients: a stream, or the error with the status of the connection's closing where
-- there is a connection. The arguments are what dialling and writing `run-task` returned, and the answer.
unfoldable pub create_stream {ℓ} :
    {A : Type ℓ} → A → Option ℕ → Option ℕ → FirstMessage → A ⊎ (Option CloseStatus × StartError)
unfolding check_started
create_stream stream (some e) written answer = inr (none, dial_failed e)
create_stream stream none (some e) answer = inr (some internal_error, run_task_failed e)
create_stream stream none none answer = elim (check_started answer) [
  | none ↦ inl stream
  | some (status, e) ↦ inr (some status, e)
]

-- An error that is kept: the first wins.
unfoldable pub keep_first {ℓ} : {A : Type ℓ} → Option A → A → Option A
keep_first none e = some e
keep_first (some old) e = some old

unfoldable pub is_set {ℓ} : {A : Type ℓ} → Option A → Bool
is_set none = false
is_set (some a) = true
