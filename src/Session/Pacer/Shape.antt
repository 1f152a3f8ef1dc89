-- ===== src/Session/Pacer/Shape.antt =====
-- `tts.start` comes first, and once.
use xiaozhi_esp32_golang_ser.Prelude.{
  ℕ, ◌≤◌, ◌<◌, ◌≡◌, ◌⊎◌, refl, Bool, true, false, Option, none, some, List, [], ◌∷◌, ◌++◌, arith,
  if◌then◌else◌, map, ap, ◌≢◌, inl, inr, Bool-cases,
}
use xiaozhi_esp32_golang_ser.Session.Message.{Text, tts_start, encode_tts_start_message}
use xiaozhi_esp32_golang_ser.Session.Core.{Frame, text_frame, binary_frame}
use xiaozhi_esp32_golang_ser.Session.Pacer.{
  DownlinkPacer, PacerError, new_downlink_pacer, enqueue, finish_input, set_stopped, cancel,
  drain_queue, Round, pace, send_packet, take_packet, receive, drain_remaining, session_id_or,
  send_tts_start, send_binary, after_start, await_tick, report, later, ensure_start, is_stale,
}
use xiaozhi_esp32_golang_ser.Session.Pacer.Events.{
  Event, enqueues, finishes, stops, cancels, moves_on, drains, paces, step, run,
}

-- Nothing yet, or `tts.start` and then packets only.
pub data StartsFirst : List Frame → Type 0 where
  nothing : StartsFirst []
  starts :
      (sid : Text) (packets : List (List ℕ))
      → StartsFirst (text_frame (tts_start sid) ∷ map binary_frame packets)

-- Packets only.
pub data IsBare : List Frame → Type 0 where
  bare_packets : (packets : List (List ℕ)) → IsBare (map binary_frame packets)

-- What the writer took is nothing, or `tts.start` and then packets only, unless the pacer was stopped before
-- `tts.start`: then it is packets only. The session is told once at most that it speaks.
pub record IsPaced (p : DownlinkPacer) : Type 0 where
  pub starts_first : p.has_sent_start ≡ true → StartsFirst p.sent
  pub unstarted : p.stopped ≡ false → p.has_sent_start ≡ false → p.sent ≡ []
  pub bare : p.has_sent_start ≡ false → IsBare p.sent
  pub silent :
      p.has_sent_start ≡ true
      → p.sent ≡ []
      → (p.gen < p.session_gen) ⊎ ((p.done ≡ true) ⊎ (p.has_writer ≡ false))
  pub spoken_once : p.speaking ≤ (if p.has_sent_start then 1 else 0)

StartsFirst-start : (sid : Text) → StartsFirst (text_frame (tts_start sid) ∷ [])
StartsFirst-start sid = starts sid []

StartsFirst-nil : StartsFirst []
StartsFirst-nil = nothing

map-snoc :
    (packets : List (List ℕ)) (packet : List ℕ)
    → map binary_frame (packets ++ packet ∷ [])
      ≡ map binary_frame packets ++ binary_frame packet ∷ []
map-snoc [] packet = refl
map-snoc (p ∷ ps) packet = ap (λ l. binary_frame p ∷ l) (map-snoc ps packet)

StartsFirst-snoc :
    (fs : List Frame) (packet : List ℕ)
    → StartsFirst fs
    → fs ≢ []
    → StartsFirst (fs ++ binary_frame packet ∷ [])
StartsFirst-snoc fs packet nothing ne = absurd (ne refl)
StartsFirst-snoc fs packet (starts sid packets) ne =
    rw (← map-snoc packets packet) (starts sid (packets ++ packet ∷ []))

IsBare-snoc :
    (fs : List Frame) (packet : List ℕ) → IsBare fs → IsBare (fs ++ binary_frame packet ∷ [])
IsBare-snoc fs packet (bare_packets packets) =
    rw (← map-snoc packets packet) (bare_packets (packets ++ packet ∷ []))

IsBare-nil : IsBare []
IsBare-nil = bare_packets []

-- The same in the middle of a round, with the error so far.
record IsSent (p : DownlinkPacer) (e : Option PacerError) : Type 0 where
  starts_first : p.has_sent_start ≡ true → StartsFirst p.sent
  unstarted : p.stopped ≡ false → p.has_sent_start ≡ false → p.sent ≡ []
  bare : p.has_sent_start ≡ false → IsBare p.sent
  spoken_once : p.speaking ≤ (if p.has_sent_start then 1 else 0)
  barred : e ≡ none → p.has_sent_start ≡ false → (p.stopped ≡ true) ⊎ (p.gen < p.session_gen)
  silent :
      e ≡ none
      → p.has_sent_start ≡ true
      → p.sent ≡ []
      → (p.gen < p.session_gen) ⊎ (p.has_writer ≡ false)

send_tts_start-IsSent :
    (w : Round) (p : DownlinkPacer)
    → IsPaced p
    → p.done ≡ false
    → IsSent (send_tts_start w p).0 (send_tts_start w p).1
unfolding send_tts_start session_id_or encode_tts_start_message
send_tts_start-IsSent w p v busy =
    ground (arith, StartsFirst-start (session_id_or w.session_id), StartsFirst-nil)

send_binary-IsSent :
    (w : Round) (packet : List ℕ) (p : DownlinkPacer)
    → IsSent p none
    → p.session_gen ≤ p.gen
    → IsSent (send_binary w packet p).0 (send_binary w packet p).1
unfolding send_binary
send_binary-IsSent w packet p v fresh =
    ground (arith, StartsFirst-snoc p.sent packet, IsBare-snoc p.sent packet)

after_start-IsSent :
    (w : Round) (packet : List ℕ) (p : DownlinkPacer) (e : Option PacerError)
    → IsSent p e
    → IsSent (after_start w packet (p, e)).0 (after_start w packet (p, e)).1
unfolding after_start
after_start-IsSent w packet p (some e) v = unfold report in ground arith
after_start-IsSent w packet p none v =
    ground (arith, send_binary-IsSent w packet (later w.later_3 p))

ensure_start-IsSent :
    (w : Round) (p : DownlinkPacer)
    → IsPaced p
    → p.done ≡ false
    → IsSent (ensure_start w p).0 (ensure_start w p).1
unfolding ensure_start
ensure_start-IsSent w p v busy = elim (Bool-cases p.has_sent_start) [
  | inl old ↦ simp old (ground arith)
  | inr new ↦ simp new (send_tts_start-IsSent w p v busy)
]

send_packet-IsSent :
    (w : Round) (packet : List ℕ) (p : DownlinkPacer)
    → IsPaced p
    → p.done ≡ false
    → IsSent (send_packet w packet p).0 (send_packet w packet p).1
unfolding send_packet
send_packet-IsSent w packet p v busy =
    let sent =
      after_start-IsSent w packet (ensure_start w p).0 (ensure_start w p).1
        (ensure_start-IsSent w p v busy) in
    elim (Bool-cases (is_stale p)) [ inl old ↦ simp old (ground arith) | inr new ↦ simp new sent ]

await_tick-IsPaced :
    (p : DownlinkPacer) (e : Option PacerError) → IsSent p e → IsPaced (await_tick (p, e))
unfolding await_tick
await_tick-IsPaced p none v = ground arith
await_tick-IsPaced p (some e) v = ground arith

take_packet-IsPaced :
    (w : Round) (packet : List ℕ) (rest : List (List ℕ)) (p : DownlinkPacer)
    → IsPaced p
    → p.done ≡ false
    → IsPaced (take_packet w packet rest p)
unfolding take_packet
take_packet-IsPaced w packet rest p v busy =
    let q : DownlinkPacer = record p { queue = rest } in
    await_tick-IsPaced (send_packet w packet q).0 (send_packet w packet q).1
      (send_packet-IsSent w packet q (ground arith) busy)

receive-IsPaced :
    (w : Round) (queue : List (List ℕ)) (p : DownlinkPacer)
    → IsPaced p
    → p.done ≡ false
    → IsPaced (receive w queue p)
unfolding receive
receive-IsPaced w [] p v busy = ground arith
receive-IsPaced w (packet ∷ rest) p v busy =
    ground (arith, take_packet-IsPaced w packet rest p v busy)

drain_remaining-IsPaced :
    (w : Round) (queue : List (List ℕ)) (p : DownlinkPacer)
    → IsPaced p
    → p.done ≡ false
    → IsPaced (drain_remaining w queue p)
unfolding drain_remaining
drain_remaining-IsPaced w [] p v busy = ground arith
drain_remaining-IsPaced w (packet ∷ rest) p v busy =
    ground (arith, take_packet-IsPaced w packet rest p v busy)

pace-IsPaced : (w : Round) (p : DownlinkPacer) → IsPaced p → IsPaced (pace w p)
unfolding pace
pace-IsPaced w p v =
    ground (arith, receive-IsPaced w p.queue p v, drain_remaining-IsPaced w p.queue p v)

step-IsPaced : (p : DownlinkPacer) (e : Event) → IsPaced p → IsPaced (step p e)
unfolding step
step-IsPaced p (enqueues sees_cancel []) v = unfold enqueue in ground arith
step-IsPaced p (enqueues sees_cancel (b ∷ packet)) v = unfold enqueue in ground arith
step-IsPaced p (finishes []) v = unfold finish_input in ground arith
step-IsPaced p (finishes (u ∷ [])) v = unfold finish_input in ground arith
step-IsPaced p (finishes (u ∷ a ∷ more)) v = unfold finish_input in ground arith
step-IsPaced p stops v = unfold set_stopped in ground arith
step-IsPaced p cancels v = unfold cancel in ground arith
step-IsPaced p drains v = unfold drain_queue in ground arith
step-IsPaced p (moves_on n) v = ground arith
step-IsPaced p (paces w) v = pace-IsPaced w p v

run-IsPaced : (p : DownlinkPacer) (es : List Event) → IsPaced p → IsPaced (run p es)
unfolding run
run-IsPaced p [] v = v
run-IsPaced p (e ∷ es) v = run-IsPaced (step p e) es (step-IsPaced p e v)

-- In every interleaving of calls, rounds, the steps of `Stop` and turns that move on, from a new pacer: as
-- long as it is not stopped, what the writer took is nothing, or `tts.start` and then packets only; one that
-- is stopped before `tts.start` may still send packets, without it; and the session is told at most once
-- that it speaks.
pub run-new_pacer-IsPaced :
    (gen session_gen queue_cap : ℕ) (has_writer : Bool) (es : List Event)
    → IsPaced (run (new_downlink_pacer gen session_gen has_writer queue_cap) es)
unfolding new_downlink_pacer
run-new_pacer-IsPaced gen session_gen queue_cap has_writer es =
    run-IsPaced (new_downlink_pacer gen session_gen has_writer queue_cap) es (record {
      starts_first = λ h. cc;
      unstarted = λ h k. refl;
      bare = λ h. IsBare-nil;
      silent = λ h k. cc;
      spoken_once = omega arith;
    })
