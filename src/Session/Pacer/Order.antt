-- ===== src/Session/Pacer/Order.antt =====
-- Packets go out in order, and the turn is reported over at most once.
use mathlib.Core.List.{Sublistᴰ}
use mathlib.Core.List.Sublistᴰ.{slnil}
use xiaozhi_esp32_golang_ser.Prelude.{
  ℕ, ◌≤◌, ◌<◌, ◌≡◌, ◌⊎◌, inl, inr, refl, sym, ap, ◌∙◌, subst, Bool, true, false, Option, none, some,
  List, [], ◌∷◌, ◌++◌, length, length-append, append_assoc, append-nil, arith, suc,
}
use xiaozhi_esp32_golang_ser.Prelude.Sublists.{prefix_of, sublist_snoc, sublist_skip}
use xiaozhi_esp32_golang_ser.Session.Message.{
  Text, tts_start, ServerMessage, encode_tts_start_message,
}
use xiaozhi_esp32_golang_ser.Session.Core.{Frame, text_frame, binary_frame}
use xiaozhi_esp32_golang_ser.Session.Pacer.{
  DownlinkPacer, PacerError, Posted, fatal_error, turn_over, new_downlink_pacer, enqueue,
  finish_input, set_stopped, cancel, drain_queue, Round, pace, send_packet, take_packet, receive,
  drain_remaining, wait_tick, leave, session_id_or, send_tts_start, send_binary, after_start,
  await_tick, report, later, ensure_start, finish_turn, refusal, pacer_stopped, context_canceled,
  downlink_queue_full, start_not_encoded, write_failed,
}
use xiaozhi_esp32_golang_ser.Session.Pacer.Events.{
  Event, enqueues, finishes, stops, cancels, drains, moves_on, paces, step, run,
}

-- The audio among the frames.
pub packets : List Frame → List (List ℕ)
packets [] = []
packets (text_frame m ∷ fs) = packets fs
packets (binary_frame packet ∷ fs) = packet ∷ packets fs

pub turns : List Posted → ℕ
turns [] = 0
turns (fatal_error gen e ∷ ps) = turns ps
turns (turn_over gen u a ∷ ps) = suc (turns ps)

pub packets-text :
    (fs : List Frame) (m : ServerMessage) → packets (fs ++ text_frame m ∷ []) ≡ packets fs
unfolding packets
packets-text [] m = refl
packets-text (text_frame n ∷ fs) m = packets-text fs m
packets-text (binary_frame b ∷ fs) m = ap (λ l. b ∷ l) (packets-text fs m)

pub packets-binary :
    (fs : List Frame) (packet : List ℕ)
    → packets (fs ++ binary_frame packet ∷ []) ≡ packets fs ++ packet ∷ []
unfolding packets
packets-binary [] packet = refl
packets-binary (text_frame n ∷ fs) packet = packets-binary fs packet
packets-binary (binary_frame b ∷ fs) packet = ap (λ l. b ∷ l) (packets-binary fs packet)

turns-error :
    (ps : List Posted) (gen : ℕ) (e : PacerError) → turns (ps ++ fatal_error gen e ∷ []) ≡ turns ps
unfolding turns
turns-error [] gen e = refl
turns-error (fatal_error g x ∷ ps) gen e = turns-error ps gen e
turns-error (turn_over g u a ∷ ps) gen e = ap suc (turns-error ps gen e)

turns-over :
    (ps : List Posted) (gen : ℕ) (u a : Text)
    → turns (ps ++ turn_over gen u a ∷ []) ≡ suc (turns ps)
unfolding turns
turns-over [] gen u a = refl
turns-over (fatal_error g x ∷ ps) gen u a = turns-over ps gen u a
turns-over (turn_over g v b ∷ ps) gen u a = ap suc (turns-over ps gen u a)

-- What a send leaves alone, and what it adds.
record Keeps (p q : DownlinkPacer) : Type 0 where
  same_queue : q.queue ≡ p.queue
  same_accepted : q.accepted ≡ p.accepted
  same_capacity : q.capacity ≡ p.capacity
  same_flags : (q.finished ≡ p.finished) × (q.done ≡ p.done) × (q.draining ≡ p.draining)
  same_turns : turns q.posted ≡ turns p.posted

send_tts_start-Keeps :
    (w : Round) (p : DownlinkPacer)
    → Keeps p (send_tts_start w p).0 × (packets (send_tts_start w p).0.sent ≡ packets p.sent)
unfolding send_tts_start encode_tts_start_message session_id_or
send_tts_start-Keeps w p =
    (ground arith, ground (arith, packets-text p.sent (tts_start (session_id_or w.session_id))))

-- What a send adds to the audio: nothing, or its packet.
abbrev Adds : List ℕ → DownlinkPacer → DownlinkPacer → Type 0
Adds packet p q =
    (packets q.sent ≡ packets p.sent) ⊎ (packets q.sent ≡ packets p.sent ++ packet ∷ [])

send_binary-Keeps :
    (w : Round) (packet : List ℕ) (p : DownlinkPacer)
    → Keeps p (send_binary w packet p).0 × Adds packet p (send_binary w packet p).0
unfolding send_binary
send_binary-Keeps w packet p = (
  ground (arith, turns-error p.posted p.gen (refusal w.packet_result), turns-error p.posted p.gen),
  ground (arith, packets-binary p.sent packet),
)

report-Keeps :
    (p : DownlinkPacer) (e : PacerError) → Keeps p (report e p) × ((report e p).sent ≡ p.sent)
unfolding report
report-Keeps p context_canceled = (ground arith, refl)
report-Keeps p pacer_stopped = (ground (arith, turns-error p.posted p.gen pacer_stopped), refl)
report-Keeps p downlink_queue_full =
    (ground (arith, turns-error p.posted p.gen downlink_queue_full), refl)
report-Keeps p start_not_encoded =
    (ground (arith, turns-error p.posted p.gen start_not_encoded), refl)
report-Keeps p (write_failed code) =
    (ground (arith, turns-error p.posted p.gen (write_failed code)), refl)

after_start-Keeps :
    (w : Round) (packet : List ℕ) (p : DownlinkPacer) (e : Option PacerError)
    → Keeps p (after_start w packet (p, e)).0 × Adds packet p (after_start w packet (p, e)).0
unfolding after_start
after_start-Keeps w packet p (some e) = ground (arith, report-Keeps p e)
after_start-Keeps w packet p none = ground (arith, send_binary-Keeps w packet (later w.later_3 p))

ensure_start-Keeps :
    (w : Round) (p : DownlinkPacer)
    → Keeps p (ensure_start w p).0 × (packets (ensure_start w p).0.sent ≡ packets p.sent)
unfolding ensure_start
ensure_start-Keeps w p = ground (arith, send_tts_start-Keeps w p)

send_packet-Keeps :
    (w : Round) (packet : List ℕ) (p : DownlinkPacer)
    → Keeps p (send_packet w packet p).0 × Adds packet p (send_packet w packet p).0
unfolding send_packet
send_packet-Keeps w packet p = ground (
  arith,
  ensure_start-Keeps w p,
  after_start-Keeps w packet (ensure_start w p).0 (ensure_start w p).1,
)

-- The queue is bounded; the packets that the writer took, then those still waiting, are among those
-- accepted, in the same order; and the turn is reported over at most once, by a loop that has returned,
-- after the input was finished.
pub record IsOrderly (p : DownlinkPacer) : Type 0 where
  pub bounded : length p.queue ≤ p.capacity
  pub in_order : Sublistᴰ (packets p.sent ++ p.queue) p.accepted
  pub over_once : turns p.posted ≤ 1
  pub over_last : 0 < turns p.posted → (p.done ≡ true) × (p.finished ≡ true)
  pub drains_after : p.draining ≡ true → p.finished ≡ true

taken_order :
    (old new : List (List ℕ)) (packet : List ℕ) (rest acc : List (List ℕ))
    → Sublistᴰ (old ++ packet ∷ rest) acc
    → (new ≡ old) ⊎ (new ≡ old ++ packet ∷ [])
    → Sublistᴰ (new ++ rest) acc
taken_order old new packet rest acc h (inl same) =
    subst (λ (l : List (List ℕ)). Sublistᴰ (l ++ rest) acc) (sym same)
      (sublist_skip h old packet rest refl)
taken_order old new packet rest acc h (inr more) =
    subst (λ (l : List (List ℕ)). Sublistᴰ (l ++ rest) acc) (sym more)
      (subst (λ (l : List (List ℕ)). Sublistᴰ l acc) (sym (append_assoc old (packet ∷ []) rest)) h)

left_order : (new rest acc : List (List ℕ)) → Sublistᴰ (new ++ rest) acc → Sublistᴰ (new ++ []) acc
left_order new rest acc h =
    subst (λ (l : List (List ℕ)). Sublistᴰ l acc) (sym (append-nil new)) (prefix_of h new rest refl)

leave-IsOrderly : (p : DownlinkPacer) → turns p.posted ≡ 0 → IsOrderly p → IsOrderly (leave p)
unfolding leave
leave-IsOrderly p none_yet v = record {
  bounded = omega arith;
  in_order = left_order (packets p.sent) p.queue p.accepted v.in_order;
  over_once = v.over_once;
  over_last = λ h. absurd (omega arith);
  drains_after = v.drains_after;
}

await_tick-IsOrderly :
    (p : DownlinkPacer) (e : Option PacerError)
    → turns p.posted ≡ 0
    → IsOrderly p
    → IsOrderly (await_tick (p, e))
unfolding await_tick
await_tick-IsOrderly p (some e) none_yet v = leave-IsOrderly p none_yet v
await_tick-IsOrderly p none none_yet v = record {
  bounded = v.bounded;
  in_order = v.in_order;
  over_once = v.over_once;
  over_last = v.over_last;
  drains_after = v.drains_after;
}

busy_turns : (p : DownlinkPacer) → IsOrderly p → p.done ≡ false → turns p.posted ≡ 0
busy_turns p v busy = ground arith

take_packet-IsOrderly :
    (w : Round) (packet : List ℕ) (rest : List (List ℕ)) (p : DownlinkPacer)
    → IsOrderly p
    → p.done ≡ false
    → p.queue ≡ packet ∷ rest
    → IsOrderly (take_packet w packet rest p)
unfolding take_packet
take_packet-IsOrderly w packet rest p v busy shape =
    let q : DownlinkPacer = record p { queue = rest } in
    let r = send_packet w packet q in
    let (keeps, adds) = send_packet-Keeps w packet q in
    let order =
      taken_order (packets p.sent) (packets r.0.sent) packet rest p.accepted
        (subst (λ (l : List (List ℕ)). Sublistᴰ (packets p.sent ++ l) p.accepted) shape v.in_order)
        adds in
    let none_yet = keeps.same_turns ∙ busy_turns p v busy in
    await_tick-IsOrderly r.0 r.1 none_yet (record {
      bounded =
          omega
            (arith, ap length keeps.same_queue, keeps.same_capacity, ap length shape, v.bounded);
      in_order = rw (keeps.same_queue, keeps.same_accepted) order;
      over_once = omega arith;
      over_last = λ h. absurd (omega arith);
      drains_after = λ h. keeps.same_flags.0 ∙ v.drains_after (sym keeps.same_flags.2 ∙ h);
    })

receive-IsOrderly :
    (w : Round) (queue : List (List ℕ)) (p : DownlinkPacer)
    → IsOrderly p
    → p.done ≡ false
    → p.queue ≡ queue
    → IsOrderly (receive w queue p)
unfolding receive
receive-IsOrderly w [] p v busy shape = ground (arith, leave-IsOrderly p (busy_turns p v busy) v)
receive-IsOrderly w (packet ∷ rest) p v busy shape = ground (
  arith,
  leave-IsOrderly p (busy_turns p v busy) v,
  take_packet-IsOrderly w packet rest p v busy shape,
)

finish_turn-leave :
    (p : DownlinkPacer)
    → IsOrderly p
    → p.done ≡ false
    → p.draining ≡ true
    → IsOrderly (leave (finish_turn p))
unfolding finish_turn leave
finish_turn-leave p v busy draining = ground (
  arith,
  left_order (packets p.sent) p.queue p.accepted v.in_order,
  turns-over p.posted p.gen p.user_text p.assistant_text,
)

drain_remaining-IsOrderly :
    (w : Round) (queue : List (List ℕ)) (p : DownlinkPacer)
    → IsOrderly p
    → p.done ≡ false
    → p.draining ≡ true
    → p.queue ≡ queue
    → IsOrderly (drain_remaining w queue p)
unfolding drain_remaining
drain_remaining-IsOrderly w [] p v busy draining shape =
    ground (arith, leave-IsOrderly p (busy_turns p v busy) v, finish_turn-leave p v busy draining)
drain_remaining-IsOrderly w (packet ∷ rest) p v busy draining shape = ground (
  arith,
  leave-IsOrderly p (busy_turns p v busy) v,
  take_packet-IsOrderly w packet rest p v busy shape,
)

wait_tick-IsOrderly :
    (w : Round) (p : DownlinkPacer) → IsOrderly p → p.done ≡ false → IsOrderly (wait_tick w p)
unfolding wait_tick
wait_tick-IsOrderly w p v busy = ground (arith, leave-IsOrderly p (busy_turns p v busy) v)

pace-IsOrderly : (w : Round) (p : DownlinkPacer) → IsOrderly p → IsOrderly (pace w p)
unfolding pace
pace-IsOrderly w p v = ground (
  arith,
  wait_tick-IsOrderly w p v,
  receive-IsOrderly w p.queue p v,
  drain_remaining-IsOrderly w p.queue p v,
)

accepted-IsOrderly :
    (p : DownlinkPacer) (packet : List ℕ)
    → IsOrderly p
    → Sublistᴰ (packets p.sent ++ (p.queue ++ packet ∷ [])) (p.accepted ++ packet ∷ [])
accepted-IsOrderly p packet v =
    subst (λ (l : List (List ℕ)). Sublistᴰ l (p.accepted ++ packet ∷ []))
      (append_assoc (packets p.sent) p.queue (packet ∷ [])) (sublist_snoc packet v.in_order)

step-IsOrderly : (p : DownlinkPacer) (e : Event) → IsOrderly p → IsOrderly (step p e)
unfolding step
step-IsOrderly p (enqueues sees_cancel []) v = unfold enqueue in ground arith
step-IsOrderly p (enqueues sees_cancel (b ∷ packet)) v =
    unfold enqueue in
    ground (
      arith,
      accepted-IsOrderly p (b ∷ packet) v,
      length-append p.queue ((b ∷ packet) ∷ []),
      turns-error p.posted p.gen downlink_queue_full,
    )
step-IsOrderly p (finishes []) v = unfold finish_input in ground arith
step-IsOrderly p (finishes (u ∷ [])) v = unfold finish_input in ground arith
step-IsOrderly p (finishes (u ∷ a ∷ more)) v = unfold finish_input in ground arith
step-IsOrderly p stops v = unfold set_stopped in ground arith
step-IsOrderly p drains v =
    unfold drain_queue in ground (arith, left_order (packets p.sent) p.queue p.accepted v.in_order)
step-IsOrderly p cancels v = unfold cancel in ground arith
step-IsOrderly p (moves_on n) v = ground arith
step-IsOrderly p (paces w) v = pace-IsOrderly w p v

run-IsOrderly : (p : DownlinkPacer) (es : List Event) → IsOrderly p → IsOrderly (run p es)
unfolding run
run-IsOrderly p [] v = v
run-IsOrderly p (e ∷ es) v = run-IsOrderly (step p e) es (step-IsOrderly p e v)

-- In every interleaving, from a new pacer: the queue is bounded; the packets that the writer took, then
-- those still waiting, are among those that `Enqueue` accepted, in the same order; and the turn is reported
-- over at most once, by a loop that has returned, after the input was finished.
pub run-new_pacer-IsOrderly :
    (gen session_gen queue_cap : ℕ) (has_writer : Bool) (es : List Event)
    → IsOrderly (run (new_downlink_pacer gen session_gen has_writer queue_cap) es)
unfolding new_downlink_pacer packets turns
run-new_pacer-IsOrderly gen session_gen queue_cap has_writer es =
    run-IsOrderly (new_downlink_pacer gen session_gen has_writer queue_cap) es (record {
      bounded = omega arith;
      in_order = slnil;
      over_once = omega arith;
      over_last = λ h. absurd (omega arith);
      drains_after = λ h. cc;
    })
