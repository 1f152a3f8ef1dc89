-- ===== src/Session/Pacer.antt =====
-- `DownlinkPacer` of internal/session/pacer.go. The ticker is the stream of its ticks, the session that the
-- pacer points to its generation and its id, and the writer what it answers. `Run` is a goroutine: one
-- call of `pace` is one round of it, up to where it may block. A pacer without a session, which only tests
-- make, is left out, as is the copy of a packet.
pub mod Events
pub mod Shape
pub mod Order
pub mod Finish
mod Tests
use xiaozhi_esp32_golang_ser.Prelude.{
  ℕ, ◌+◌, Bool, true, false, not, ◌&&◌, ◌||◌, Option, none, some, List, [], ◌∷◌, ◌++◌, length, ltb,
  ◌==◌, if◌then◌else◌,
}
use xiaozhi_esp32_golang_ser.Session.Writer.{default_write_queue_capacity}
use xiaozhi_esp32_golang_ser.Session.Message.{Text, ServerMessage, encode_tts_start_message}
use xiaozhi_esp32_golang_ser.Session.Core.{Frame, text_frame, binary_frame}

pub data PacerError : Type 0 where
  pacer_stopped context_canceled downlink_queue_full start_not_encoded : PacerError
  write_failed : ℕ → PacerError

-- What the pacer posts to its session, each with its generation.
pub data Posted : Type 0 where
  fatal_error : ℕ → PacerError → Posted
  turn_over : ℕ → Text → Text → Posted

-- `finished` says that `finishChan` is closed; `waiting` that the loop waits for a tick, `draining` that it
-- is in `drainRemaining`, `done` that `Run` has returned. `session_gen` is the session's generation, and
-- `speaking` counts the calls of `transitionToSpeaking`. `accepted` holds the packets that `Enqueue` took,
-- `sent` what the writer took, `posted` what the session got, each in order.
pub record DownlinkPacer : Type 0 where
  pub gen : ℕ
  pub session_gen : ℕ
  pub has_writer : Bool
  pub queue : List (List ℕ)
  pub capacity : ℕ
  pub ctx_done : Bool
  pub finished : Bool
  pub stopped : Bool
  pub has_sent_start : Bool
  pub user_text : Text
  pub assistant_text : Text
  pub waiting : Bool
  pub draining : Bool
  pub done : Bool
  pub speaking : ℕ
  pub accepted : List (List ℕ)
  pub sent : List Frame
  pub posted : List Posted

unfoldable pub new_downlink_pacer : ℕ → ℕ → Bool → ℕ → DownlinkPacer
new_downlink_pacer gen session_gen has_writer queue_cap = record {
  gen = gen;
  session_gen = session_gen;
  has_writer = has_writer;
  queue = [];
  capacity = if queue_cap == 0 then default_write_queue_capacity else queue_cap;
  ctx_done = false;
  finished = false;
  stopped = false;
  has_sent_start = false;
  user_text = [];
  assistant_text = [];
  waiting = false;
  draining = false;
  done = false;
  speaking = 0;
  accepted = [];
  sent = [];
  posted = [];
}

-- The session is in a later turn.
abbrev pub is_stale : DownlinkPacer → Bool
is_stale p = ltb p.gen p.session_gen

-- The session's generation only counts up; `n` steps of it pass before it is read again.
abbrev pub later : ℕ → DownlinkPacer → DownlinkPacer
later n p = record p { session_gen = p.session_gen + n }

unfoldable pub post_error : PacerError → DownlinkPacer → DownlinkPacer
post_error e p = record p { posted = p.posted ++ fatal_error p.gen e ∷ [] }

-- Where the context is done and the queue has room too, `select` takes either; `sees_cancel` is its choice.
unfoldable pub enqueue : Bool → List ℕ → DownlinkPacer → DownlinkPacer × Option PacerError
unfolding post_error
enqueue sees_cancel [] p = (p, none)
enqueue sees_cancel (b ∷ packet) p =
    if p.stopped || is_stale p
    then (p, some pacer_stopped)
    else if p.ctx_done && sees_cancel
    then (p, some context_canceled)
    else if ltb (length p.queue) p.capacity
    then (
      record p { queue = p.queue ++ (b ∷ packet) ∷ []; accepted = p.accepted ++ (b ∷ packet) ∷ [] },
      none,
    )
    else if p.ctx_done
    then (p, some context_canceled)
    else (post_error downlink_queue_full p, some downlink_queue_full)

-- The turn's texts, none, the first, or both.
unfoldable pub finish_input : List Text → DownlinkPacer → DownlinkPacer
finish_input [] p = record p { finished = true }
finish_input (u ∷ []) p = record p { user_text = u; finished = true }
finish_input (u ∷ a ∷ more) p = record p { user_text = u; assistant_text = a; finished = true }

-- `Stop` sets the flag under the mutex, and after that cancels the context and drains the queue. Other steps
-- may come between the three.
unfoldable pub set_stopped : DownlinkPacer → DownlinkPacer
set_stopped p = record p { stopped = true }

unfoldable pub cancel : DownlinkPacer → DownlinkPacer
cancel p = record p { ctx_done = true }

unfoldable pub drain_queue : DownlinkPacer → DownlinkPacer
drain_queue p = record p { queue = [] }

-- What a round meets: the choices of `select`, whether a tick has come, the session's id, how far the
-- generation counts up before each of its three later readings, and the writer's answers.
pub record Round : Type 0 where
  pub sees_cancel : Bool
  pub sees_finish : Bool
  pub ticked : Bool
  pub session_id : Text
  pub later_1 : ℕ
  pub later_2 : ℕ
  pub later_3 : ℕ
  pub start_result : Option PacerError
  pub packet_result : Option PacerError

-- "pacer-session" stands in for an id that is empty.
unfoldable pub session_id_or : Text → Text
session_id_or [] =
    0x70 ∷ 0x61 ∷ 0x63 ∷ 0x65 ∷ 0x72 ∷ 0x2d ∷ 0x73 ∷ 0x65 ∷ 0x73 ∷ 0x73 ∷ 0x69 ∷ 0x6f ∷ 0x6e ∷ []
session_id_or (c ∷ sid) = c ∷ sid

-- `session.sendTextMessage`, which drops the message where there is no writer, then the change of state.
unfoldable pub start_speaking :
    ServerMessage → Option PacerError → DownlinkPacer → DownlinkPacer × Option PacerError
start_speaking m result p =
    if p.has_writer
    then elim result [
      | some e ↦ (p, some e)
      | none ↦ (record p { sent = p.sent ++ text_frame m ∷ []; speaking = p.speaking + 1 }, none)
    ]
    else (record p { speaking = p.speaking + 1 }, none)

unfoldable pub encoded_start :
    Round → Option ServerMessage → DownlinkPacer → DownlinkPacer × Option PacerError
unfolding start_speaking
encoded_start w none p = (p, some start_not_encoded)
encoded_start w (some m) p = if is_stale p then (p, none) else start_speaking m w.start_result p

unfoldable pub send_tts_start : Round → DownlinkPacer → DownlinkPacer × Option PacerError
unfolding encoded_start
send_tts_start w p =
    let begun : DownlinkPacer = later w.later_1 (record p { has_sent_start = true }) in
    if p.has_sent_start || p.stopped
    then (p, none)
    else if is_stale begun
    then (begun, none)
    else encoded_start w (encode_tts_start_message (session_id_or w.session_id))
        (later w.later_2 begun)

-- A cancelled context is no error to report.
unfoldable pub report : PacerError → DownlinkPacer → DownlinkPacer
unfolding post_error
report context_canceled p = p
report e p = post_error e p

-- A writer that is handed a cancelled context refuses.
unfoldable pub refusal : Option PacerError → PacerError
refusal none = context_canceled
refusal (some e) = e

unfoldable pub packet_answer : Bool → Option PacerError → Option PacerError
unfolding refusal
packet_answer true result = some (refusal result)
packet_answer false result = result

unfoldable pub send_binary : Round → List ℕ → DownlinkPacer → DownlinkPacer × Option PacerError
unfolding report packet_answer
send_binary w packet p =
    if p.has_writer
    then elim (packet_answer p.ctx_done w.packet_result) [
      | some e ↦ (report e p, some e)
      | none ↦ (record p { sent = p.sent ++ binary_frame packet ∷ [] }, none)
    ]
    else (p, none)

unfoldable pub after_start :
    Round → List ℕ → DownlinkPacer × Option PacerError → DownlinkPacer × Option PacerError
unfolding send_binary report
after_start w packet (p, some e) = (report e p, some e)
after_start w packet (p, none) =
    let p' = later w.later_3 p in if is_stale p' then (p', none) else send_binary w packet p'

unfoldable pub ensure_start : Round → DownlinkPacer → DownlinkPacer × Option PacerError
ensure_start w p = if p.has_sent_start then (p, none) else send_tts_start w p

unfoldable pub send_packet : Round → List ℕ → DownlinkPacer → DownlinkPacer × Option PacerError
send_packet w packet p = if is_stale p then (p, none) else after_start w packet (ensure_start w p)

-- What `Run` defers.
unfoldable pub leave : DownlinkPacer → DownlinkPacer
leave p = record p { queue = []; done = true }

unfoldable pub finish_turn : DownlinkPacer → DownlinkPacer
finish_turn p =
    if p.stopped
    then p
    else record p { posted = p.posted ++ turn_over p.gen p.user_text p.assistant_text ∷ [] }

-- After a packet the loop waits for a tick, or returns the error.
unfoldable pub await_tick : DownlinkPacer × Option PacerError → DownlinkPacer
unfolding leave
await_tick (p, some e) = leave p
await_tick (p, none) = record p { waiting = true }

unfoldable pub wait_tick : Round → DownlinkPacer → DownlinkPacer
unfolding leave
wait_tick w p =
    if p.ctx_done && w.sees_cancel
    then leave p
    else if w.ticked
    then record p { waiting = false }
    else p

unfoldable pub take_packet : Round → List ℕ → List (List ℕ) → DownlinkPacer → DownlinkPacer
unfolding await_tick
take_packet w packet rest p = await_tick (send_packet w packet (record p { queue = rest }))

-- A round of `drainRemaining`: the default is taken only where nothing else is ready.
unfoldable pub drain_remaining : Round → List (List ℕ) → DownlinkPacer → DownlinkPacer
unfolding take_packet finish_turn leave
drain_remaining w [] p = if p.ctx_done then leave p else leave (finish_turn p)
drain_remaining w (packet ∷ rest) p =
    if p.ctx_done && w.sees_cancel then leave p else take_packet w packet rest p

-- A round of the loop of `Run`.
unfoldable pub receive : Round → List (List ℕ) → DownlinkPacer → DownlinkPacer
unfolding take_packet leave
receive w [] p =
    if p.ctx_done && (w.sees_cancel || not p.finished)
    then leave p
    else if p.finished
    then record p { draining = true }
    else p
receive w (packet ∷ rest) p =
    if p.ctx_done && w.sees_cancel
    then leave p
    else if p.finished && w.sees_finish
    then record p { draining = true }
    else take_packet w packet rest p

unfoldable pub pace : Round → DownlinkPacer → DownlinkPacer
unfolding wait_tick drain_remaining receive
pace w p =
    if p.done
    then p
    else if p.waiting
    then wait_tick w p
    else if p.draining
    then drain_remaining w p.queue p
    else receive w p.queue p
