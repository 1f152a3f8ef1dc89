-- ===== src/Session/Pacer/Tests.antt =====
-- The theorems on the pacer at concrete inputs, and a run of it.
use xiaozhi_esp32_golang_ser.Prelude.{◌≡◌, refl, true, false, none, List, [], ◌∷◌, arith}
use xiaozhi_esp32_golang_ser.Session.Message.{tts_start, encode_tts_start_message}
use xiaozhi_esp32_golang_ser.Session.Core.{text_frame, binary_frame}
use xiaozhi_esp32_golang_ser.Session.Pacer.{
  DownlinkPacer, Round, set_stopped, new_downlink_pacer, pace, receive, take_packet, send_packet,
  ensure_start, send_tts_start, encoded_start, session_id_or, start_speaking, after_start,
  send_binary, packet_answer, await_tick, wait_tick, drain_remaining, finish_turn, leave,
}
use xiaozhi_esp32_golang_ser.Session.Pacer.Events.{
  Event, enqueues, finishes, stops, cancels, moves_on, paces, run,
}
use xiaozhi_esp32_golang_ser.Session.Pacer.Shape.{IsPaced, run-new_pacer-IsPaced}
use xiaozhi_esp32_golang_ser.Session.Pacer.Order.{IsOrderly, run-new_pacer-IsOrderly}
use xiaozhi_esp32_golang_ser.Session.Pacer.Finish.{IsFair, IsPlaying, Ends, rounds, rounds_finish}

abbrev fair_round : Round
fair_round = record {
  sees_cancel = false;
  sees_finish = false;
  ticked = true;
  session_id = 7 ∷ [];
  later_1 = 0;
  later_2 = 0;
  later_3 = 0;
  start_result = none;
  packet_result = none;
}

abbrev turn_events : List Event
turn_events =
    enqueues false (1 ∷ [])
    ∷ paces fair_round
    ∷ enqueues false (2 ∷ [])
    ∷ finishes ((8 ∷ []) ∷ (9 ∷ []) ∷ [])
    ∷ paces fair_round
    ∷ paces fair_round
    ∷ moves_on 1
    ∷ paces fair_round
    ∷ stops
    ∷ cancels
    ∷ []

run-new_pacer-IsPaced_example : IsPaced (run (new_downlink_pacer 3 3 true 2) turn_events)
run-new_pacer-IsPaced_example = run-new_pacer-IsPaced 3 3 2 true turn_events

run-new_pacer-IsOrderly_example : IsOrderly (run (new_downlink_pacer 3 3 true 2) turn_events)
run-new_pacer-IsOrderly_example = run-new_pacer-IsOrderly 3 3 2 true turn_events

-- Two packets wait.
abbrev full_pacer : DownlinkPacer
full_pacer = record {
  gen = 3;
  session_gen = 3;
  has_writer = true;
  queue = (1 ∷ []) ∷ (2 ∷ []) ∷ [];
  capacity = 2;
  ctx_done = false;
  finished = true;
  stopped = false;
  has_sent_start = false;
  user_text = 8 ∷ [];
  assistant_text = 9 ∷ [];
  waiting = false;
  draining = false;
  done = false;
  speaking = 0;
  accepted = (1 ∷ []) ∷ (2 ∷ []) ∷ [];
  sent = [];
  posted = [];
}

full_pacer-IsPlaying : IsPlaying full_pacer
full_pacer-IsPlaying = record {
  finished = refl;
  current = omega arith;
  alive = (refl, refl, refl, refl);
}

abbrev six_rounds : List Round
six_rounds = fair_round ∷ fair_round ∷ fair_round ∷ fair_round ∷ fair_round ∷ fair_round ∷ []

fair : IsFair fair_round
fair = record { ticks = refl; stays = (refl, refl, refl); writes = (refl, refl) }

rounds_finish_example : Ends full_pacer (rounds full_pacer six_rounds)
rounds_finish_example =
    rounds_finish full_pacer six_rounds full_pacer-IsPlaying
      (fair, (fair, (fair, (fair, (fair, (fair, tt)))))) (omega arith)

six_sent :
    (rounds full_pacer six_rounds).sent
    ≡ text_frame (tts_start (7 ∷ [])) ∷ binary_frame (1 ∷ []) ∷ binary_frame (2 ∷ []) ∷ []
unfolding rounds pace receive take_packet send_packet ensure_start send_tts_start encoded_start
    encode_tts_start_message session_id_or start_speaking after_start send_binary packet_answer
    await_tick wait_tick drain_remaining finish_turn leave
six_sent = refl

-- A round between the first two steps of `Stop`: the packet goes out without `tts.start`.
stopped_sends :
    (rounds (set_stopped full_pacer) (fair_round ∷ fair_round ∷ [])).sent
    ≡ binary_frame (1 ∷ []) ∷ []
unfolding rounds pace receive take_packet send_packet ensure_start send_tts_start encoded_start
    encode_tts_start_message session_id_or start_speaking after_start send_binary packet_answer
    await_tick wait_tick drain_remaining finish_turn leave set_stopped
stopped_sends = refl
