-- ===== src/Session/Pacer/Finish.antt =====
-- Once the input is finished the turn is reported over, with every packet that waited sent before.
use xiaozhi_esp32_golang_ser.Prelude.{
  ℕ, ◌+◌, ◌*◌, ◌≤◌, ◌≡◌, ◌⊎◌, inl, inr, refl, ap, true, false, Option, none, some, List, [], ◌∷◌,
  ◌++◌, length, append_assoc, append-nil, arith, if◌then◌else◌, Bool-cases, All,
}
use xiaozhi_esp32_golang_ser.Session.Pacer.{
  DownlinkPacer, Round, PacerError, turn_over, pace, send_packet, take_packet, receive,
  drain_remaining, wait_tick, leave, ensure_start, send_tts_start, send_binary, after_start,
  await_tick, finish_turn, session_id_or, later,
}
use xiaozhi_esp32_golang_ser.Session.Message.{tts_start, encode_tts_start_message}
use xiaozhi_esp32_golang_ser.Session.Pacer.Order.{packets, packets-text, packets-binary}

-- The rounds of `Run` one after the other, with nothing in between.
unfoldable pub rounds : DownlinkPacer → List Round → DownlinkPacer
rounds p [] = p
rounds p (w ∷ ws) = rounds (pace w p) ws

-- A round in which the tick comes, the writer takes what it gets, and the session stays in its turn.
pub record IsFair (w : Round) : Type 0 where
  pub ticks : w.ticked ≡ true
  pub stays : (w.later_1 ≡ 0) × (w.later_2 ≡ 0) × (w.later_3 ≡ 0)
  pub writes : (w.start_result ≡ none) × (w.packet_result ≡ none)

-- A pacer whose input is finished, of the session's current turn, and that nobody has stopped.
pub record IsPlaying (p : DownlinkPacer) : Type 0 where
  pub finished : p.finished ≡ true
  pub current : p.session_gen ≤ p.gen
  pub alive : (p.ctx_done ≡ false) × (p.stopped ≡ false) × (p.done ≡ false) × (p.has_writer ≡ true)

-- The rounds that are left: two for a packet, one for the change into draining, one for the end.
abbrev pub rounds_left : DownlinkPacer → ℕ
rounds_left p =
    2 * length p.queue + (if p.waiting then 1 else 0) + (if p.draining then 0 else 1) + 1

-- What a fair send leaves alone.
record Fair (p q : DownlinkPacer) : Type 0 where
  playing : IsPlaying q
  same_texts : (q.gen ≡ p.gen) × (q.user_text ≡ p.user_text) × (q.assistant_text ≡ p.assistant_text)
  same_phase : (q.waiting ≡ p.waiting) × (q.draining ≡ p.draining)
  same_posted : q.posted ≡ p.posted
  same_queue : q.queue ≡ p.queue

send_tts_start-Fair :
    (w : Round) (p : DownlinkPacer)
    → IsFair w
    → IsPlaying p
    → ((send_tts_start w p).1 ≡ none)
      × Fair p (send_tts_start w p).0
      × (packets (send_tts_start w p).0.sent ≡ packets p.sent)
unfolding send_tts_start encode_tts_start_message session_id_or
send_tts_start-Fair w p fair v = (
  ground arith,
  ground arith,
  ground (arith, packets-text p.sent (tts_start (session_id_or w.session_id))),
)

send_binary-Fair :
    (w : Round) (packet : List ℕ) (p : DownlinkPacer)
    → IsFair w
    → IsPlaying p
    → ((send_binary w packet p).1 ≡ none)
      × Fair p (send_binary w packet p).0
      × (packets (send_binary w packet p).0.sent ≡ packets p.sent ++ packet ∷ [])
unfolding send_binary
send_binary-Fair w packet p fair v =
    (ground arith, ground arith, ground (arith, packets-binary p.sent packet))

ensure_start-Fair :
    (w : Round) (p : DownlinkPacer)
    → IsFair w
    → IsPlaying p
    → ((ensure_start w p).1 ≡ none)
      × Fair p (ensure_start w p).0
      × (packets (ensure_start w p).0.sent ≡ packets p.sent)
unfolding ensure_start
ensure_start-Fair w p fair v = ground (arith, send_tts_start-Fair w p fair v)

after_start-Fair :
    (w : Round) (packet : List ℕ) (p : DownlinkPacer) (e : Option PacerError)
    → IsFair w
    → IsPlaying p
    → e ≡ none
    → ((after_start w packet (p, e)).1 ≡ none)
      × Fair p (after_start w packet (p, e)).0
      × (packets (after_start w packet (p, e)).0.sent ≡ packets p.sent ++ packet ∷ [])
unfolding after_start
after_start-Fair w packet p (some e) fair v h = cc
after_start-Fair w packet p none fair v h =
    ground (arith, send_binary-Fair w packet (later w.later_3 p) fair)

send_packet-Fair :
    (w : Round) (packet : List ℕ) (p : DownlinkPacer)
    → IsFair w
    → IsPlaying p
    → ((send_packet w packet p).1 ≡ none)
      × Fair p (send_packet w packet p).0
      × (packets (send_packet w packet p).0.sent ≡ packets p.sent ++ packet ∷ [])
unfolding send_packet
send_packet-Fair w packet p fair v =
    let (fine, same, sent) = ensure_start-Fair w p fair v in
    let start = ensure_start w p in
    let (fine', same', sent') = after_start-Fair w packet start.0 start.1 fair same.playing fine in
    ground arith

-- One round further: nothing is lost or posted.
record Goes (p q : DownlinkPacer) : Type 0 where
  playing : IsPlaying q
  same_texts : (q.gen ≡ p.gen) × (q.user_text ≡ p.user_text) × (q.assistant_text ≡ p.assistant_text)
  same_posted : q.posted ≡ p.posted
  same_audio : packets q.sent ++ q.queue ≡ packets p.sent ++ p.queue
  fewer : rounds_left q + 1 ≡ rounds_left p

-- The end: all audio is sent, and the turn is reported over.
pub record Ends (p q : DownlinkPacer) : Type 0 where
  pub returned : q.done ≡ true
  pub all_sent : packets q.sent ≡ packets p.sent ++ p.queue
  pub turn_reported : q.posted ≡ p.posted ++ turn_over p.gen p.user_text p.assistant_text ∷ []

take_packet-Goes :
    (w : Round) (packet : List ℕ) (rest : List (List ℕ)) (p : DownlinkPacer)
    → IsFair w
    → IsPlaying p
    → p.queue ≡ packet ∷ rest
    → p.waiting ≡ false
    → Goes p (take_packet w packet rest p)
unfolding take_packet await_tick
take_packet-Goes w packet rest p fair v shape here =
    let q : DownlinkPacer = record p { queue = rest } in
    let (fine, same, sent) = send_packet-Fair w packet q fair (ground arith) in
    ground (arith, append_assoc (packets p.sent) (packet ∷ []) rest, ap length shape)

receive-Goes :
    (w : Round) (queue : List (List ℕ)) (p : DownlinkPacer)
    → IsFair w
    → IsPlaying p
    → p.queue ≡ queue
    → p.waiting ≡ false
    → p.draining ≡ false
    → Goes p (receive w queue p)
unfolding receive
receive-Goes w [] p fair v shape here run = ground arith
receive-Goes w (packet ∷ rest) p fair v shape here run =
    ground (arith, take_packet-Goes w packet rest p fair v shape here)

drain-Goes :
    (w : Round) (queue : List (List ℕ)) (p : DownlinkPacer)
    → IsFair w
    → IsPlaying p
    → p.queue ≡ queue
    → p.waiting ≡ false
    → p.draining ≡ true
    → Goes p (drain_remaining w queue p)
      ⊎ (Ends p (drain_remaining w queue p) × (rounds_left p ≡ 1))
unfolding drain_remaining finish_turn leave
drain-Goes w [] p fair v shape here run = inr (ground (arith, append-nil (packets p.sent)))
drain-Goes w (packet ∷ rest) p fair v shape here run =
    inl (ground (arith, take_packet-Goes w packet rest p fair v shape here))

pace-Goes :
    (w : Round) (p : DownlinkPacer)
    → IsFair w
    → IsPlaying p
    → Goes p (pace w p) ⊎ (Ends p (pace w p) × (rounds_left p ≡ 1))
unfolding pace wait_tick
pace-Goes w p fair v = elim (Bool-cases p.waiting) [
  | inl here ↦ inl (ground arith)
  | inr here ↦ elim (Bool-cases p.draining) [
    | inl now ↦ ground (arith, drain-Goes w p.queue p fair v refl here now)
    | inr now ↦ inl (ground (arith, receive-Goes w p.queue p fair v refl here now))
  ]
]

Goes-Ends : (p q r : DownlinkPacer) → Goes p q → Ends q r → Ends p r
Goes-Ends p q r goes ends = ground arith

pace_done : (w : Round) (p : DownlinkPacer) → p.done ≡ true → pace w p ≡ p
unfolding pace
pace_done w p h = ground arith

done_stays : (p : DownlinkPacer) (ws : List Round) → p.done ≡ true → rounds p ws ≡ p
unfolding rounds
done_stays p [] h = refl
done_stays p (w ∷ ws) h = rw (pace_done w p h) (done_stays p ws h)

-- Enough fair rounds after the input is finished, two for each packet that waits and three more at most,
-- end the loop: every packet that waited has been sent, in order, and then the turn is reported over,
-- once, with its texts.
pub rounds_finish :
    (p : DownlinkPacer) (ws : List Round)
    → IsPlaying p
    → All IsFair ws
    → rounds_left p ≤ length ws
    → Ends p (rounds p ws)
unfolding rounds
rounds_finish p [] v fair enough = absurd (omega arith)
rounds_finish p (w ∷ ws) v fair enough = elim (pace-Goes w p fair.0 v) [
  | inl goes ↦
      let ends = rounds_finish (pace w p) ws goes.playing fair.1 (omega (arith, goes.fewer)) in
      Goes-Ends p (pace w p) (rounds (pace w p) ws) goes ends
  | inr (ends, last) ↦ rw (done_stays (pace w p) ws ends.returned) ends
]
