-- ===== src/Session/Orchestration/Outputs.antt =====
-- What the answering goroutine may do after what it has done, up to its loop over a reply.
use xiaozhi_esp32_golang_ser.Prelude.{
  ◌≡◌, Bool, true, false, Option, none, some, List, [], ◌∷◌, ◌++◌, arith, Bool-cases, Option-cases,
  inl, inr,
}
use xiaozhi_esp32_golang_ser.Session.Message.{Text}
use xiaozhi_esp32_golang_ser.Session.Splitter.{feed}
use xiaozhi_esp32_golang_ser.Session.Orchestration.{
  Failure, canceled, ToolCall, Output, Received, chunk, read_failed, World, Task, finishes_tts,
  stops_pacer, writes_start, speaks, reports, calls_tool, finishes_input, is_over, seen, give_up,
  give_up_ctx, speak, write_start, send_sentence, take_chunk, deliver, consume,
}
use xiaozhi_esp32_golang_ser.Session.Mcp.{is_mcp_tool_allowed}
use xiaozhi_esp32_golang_ser.Session.Orchestration.Pipeline.{call_tool}

abbrev pub last_start : List Output → Option Text
last_start (writes_start text ∷ log) = some text
last_start _ = none

-- The TTS stream has been told that its input is over.
abbrev pub is_sealed : List Output → Bool
is_sealed [] = false
is_sealed (finishes_tts ∷ log) = true
is_sealed (o ∷ log) = is_sealed log

abbrev pub is_settled : List Output → Bool
is_settled [] = false
is_settled (finishes_input u a ∷ log) = true
is_settled (o ∷ log) = is_settled log

abbrev pub is_reported : List Output → Bool
is_reported [] = false
is_reported (reports f ∷ log) = true
is_reported (o ∷ log) = is_reported log

-- What may be done after `log`: a sentence is spoken right after its text was written, and while the TTS
-- stream takes input; that input ends once; an error is reported once; only a tool that the device has is called; the pacer's
-- input is finished after that of the TTS stream, and once, and then the pacer is not stopped.
abbrev pub Fits : List Text → Output → List Output → Type 0
Fits tools (speaks text) log = (last_start log ≡ some text) × (is_sealed log ≡ false)
Fits tools finishes_tts log = is_sealed log ≡ false
Fits tools (reports f) log = is_reported log ≡ false
Fits tools (calls_tool call) log = is_mcp_tool_allowed call.name tools ≡ true
Fits tools (finishes_input u a) log =
    (is_sealed log ≡ true) × (is_settled log ≡ false) × (is_reported log ≡ false)
Fits tools stops_pacer log = is_settled log ≡ false
Fits tools _ log = Unit {0}

abbrev pub IsProper : List Text → List Output → Type 0
IsProper tools [] = Unit {0}
IsProper tools (o ∷ log) = Fits tools o log × IsProper tools log

-- A task in the middle of its reply.
pub record IsLive (tools : List Text) (t : Task) : Type 0 where
  pub proper : IsProper tools t.log
  pub unsealed : is_sealed t.log ≡ false
  pub unsettled : is_settled t.log ≡ false
  pub unreported : is_reported t.log ≡ false

-- A step that goes on leaves a task in the middle, and one that gives up leaves no finished turn.
pub record IsMidway (tools : List Text) (r : Task × Bool) : Type 0 where
  pub proper : IsProper tools r.0.log
  pub unsettled : is_settled r.0.log ≡ false
  pub goes_on : r.1 ≡ true → (is_sealed r.0.log ≡ false) × (is_reported r.0.log ≡ false)

pub record IsOver (tools : List Text) (r : Task × Bool) : Type 0 where
  pub proper : IsProper tools r.0.log
  pub settled : is_settled r.0.log ≡ r.1

pub give_up-IsMidway :
    (tools : List Text) (f : Failure) (t : Task)
    → IsProper tools t.log
    → is_settled t.log ≡ false
    → is_reported t.log ≡ false
    → IsMidway tools (give_up f t, false)
unfolding give_up
give_up-IsMidway tools canceled t p s r = ground arith
give_up-IsMidway tools f t p s r = ground arith

pub give_up_ctx-IsMidway :
    (tools : List Text) (f : Failure) (t : Task)
    → IsProper tools t.log
    → is_settled t.log ≡ false
    → is_reported t.log ≡ false
    → IsMidway tools (give_up_ctx f t, false)
unfolding give_up_ctx
give_up_ctx-IsMidway tools canceled t p s r = ground arith
give_up_ctx-IsMidway tools f t p s r = ground arith

module _ (w : World) where
  send_sentence-IsLive :
      (text : Text) (t : Task)
      → IsLive w.allowed_tools t
      → IsLive w.allowed_tools (send_sentence w text t).0
  unfolding send_sentence speak write_start
  send_sentence-IsLive text t v = ground arith

  pub deliver-IsMidway :
      (texts : List Text) (t : Task)
      → IsLive w.allowed_tools t
      → IsMidway w.allowed_tools (deliver w texts t)
  unfolding deliver
  deliver-IsMidway [] t v = ground arith
  deliver-IsMidway (text ∷ texts) t v =
      let v' = send_sentence-IsLive text t v in
      elim (Option-cases (send_sentence w text t).1) [
        | inl e ↦ ground (arith, deliver-IsMidway texts (send_sentence w text t).0 v')
        | inr (f, e) ↦ ground (
          arith,
          give_up-IsMidway w.allowed_tools f (send_sentence w text t).0 v'.proper v'.unsettled
              v'.unreported,
        )
      ]

  take_chunk-IsMidway :
      (text : Text) (t : Task)
      → IsLive w.allowed_tools t
      → IsMidway w.allowed_tools (take_chunk w text t)
  unfolding take_chunk
  take_chunk-IsMidway [] t v = ground arith
  take_chunk-IsMidway (r ∷ text) t v =
      let fed = feed t.splitter (r ∷ text) in
      deliver-IsMidway fed.1
        (record t { assistant_text = t.assistant_text ++ (r ∷ text); splitter = fed.0 })
        (record {
          proper = v.proper;
          unsealed = v.unsealed;
          unsettled = v.unsettled;
          unreported = v.unreported;
        })

  pub IsMidway-IsLive :
      (r : Task × Bool) → IsMidway w.allowed_tools r → r.1 ≡ true → IsLive w.allowed_tools r.0
  IsMidway-IsLive r m h = ground arith

  pub seen-IsLive : (t : Task) → IsLive w.allowed_tools t → IsLive w.allowed_tools (seen t)
  seen-IsLive t v = record {
    proper = v.proper;
    unsealed = v.unsealed;
    unsettled = v.unsettled;
    unreported = v.unreported;
  }

  pub call_tool-IsLive :
      (c : ToolCall) (t : Task)
      → IsLive w.allowed_tools t
      → IsLive w.allowed_tools (call_tool w c t)
  unfolding call_tool
  call_tool-IsLive c t v = ground arith

  pub consume-IsMidway :
      (rs : List Received) (t : Task)
      → IsLive w.allowed_tools t
      → IsMidway w.allowed_tools (consume w rs t)
  unfolding consume
  consume-IsMidway [] t v = ground arith
  consume-IsMidway (read_failed f ∷ rs) t v =
      give_up-IsMidway w.allowed_tools f t v.proper v.unsettled v.unreported
  consume-IsMidway (chunk text ∷ rs) t v = elim (Bool-cases (is_over t)) [
    | inl e ↦ ground arith
    | inr e ↦
        let m = take_chunk-IsMidway text (seen t) (seen-IsLive t v) in
        elim (Bool-cases (take_chunk w text (seen t)).1) [
          | inl h ↦ ground (
            arith,
            consume-IsMidway rs (take_chunk w text (seen t)).0
                (IsMidway-IsLive (take_chunk w text (seen t)) m h),
          )
          | inr h ↦ ground arith
        ]
  ]
