-- ===== src/Session/Readers/Loop.antt =====
-- What `readLoop` posts: each message is one event, in order, and the end of the connection comes last.
use mathlib.Core.List.{Sublistᴰ}
use mathlib.Core.List.Sublistᴰ
use xiaozhi_esp32_golang_ser.Prelude.{
  ℕ, ◌+◌, ◌≤◌, ◌⊎◌, ◌≡◌, refl, sym, ap, ◌∙◌, ◌≢◌, none, subst, inl, inr, Bool, true, false, Option,
  some, List, [], ◌∷◌, ◌++◌, length, keep, length-append, keep-append, append-nil, append_assoc,
  arith, Bool-cases, Option-cases, if◌then◌else◌,
}
use xiaozhi_esp32_golang_ser.Prelude.Sublists.{sublist_nil}
use xiaozhi_esp32_golang_ser.Session.Message.Parse.{
  Decoded, ParseError, ok, err, parse_client_message, codes,
}
use xiaozhi_esp32_golang_ser.Session.Message.{ClientMessage}
use xiaozhi_esp32_golang_ser.Session.Core.{
  State, connected, ready, listening, processing, speaking, closed, Event, policy_violation,
  normal_closure,
}
use xiaozhi_esp32_golang_ser.Session.Readers.{
  post_event, Incoming, binary, text, Round, text_event, message_event, posts, read_rounds,
  read_loop,
}

unfoldable pub is_close : Event → Bool
is_close (Event.close_request code reason) = true
is_close other = false

unfoldable pub is_error : Event → Bool
is_error (Event.error gen e fatal code) = true
is_error other = false

-- The Opus packet of an event, or of a message that is not taken for a hello.
unfoldable pub packet : Event → List (List ℕ)
packet (Event.client_audio bytes) = bytes ∷ []
packet other = []

unfoldable pub packets : List Event → List (List ℕ)
packets [] = []
packets (e ∷ es) = packet e ++ packets es

unfoldable pub sent_packet : State → Option Incoming → List (List ℕ)
sent_packet connected m = []
sent_packet s (some (binary bytes)) = bytes ∷ []
sent_packet s other = []

unfoldable pub sent_packets : List Round → List (List ℕ)
sent_packets [] = []
sent_packets (r ∷ rounds) = sent_packet r.seen r.message ++ sent_packets rounds

-- What the rounds post: no end of the connection, one event for a message at most, one error at most, and
-- of the packets sent some, in order.
record IsRead (rounds : List Round) (es : List Event) : Type 0 where
  bounded : length es ≤ length rounds
  no_close : length (keep is_close es) ≡ 0
  one_error : length (keep is_error es) ≤ 1
  in_order : Sublistᴰ (packets es) (sent_packets rounds)

nothing-IsRead : (rounds : List Round) → IsRead rounds []
unfolding packets
nothing-IsRead rounds = record {
  bounded = ground arith;
  no_close = refl;
  one_error = ground arith;
  in_order = sublist_nil _;
}

skip-IsRead :
    (r : Round) (rounds : List Round) (rest : List Event)
    → IsRead rounds rest
    → IsRead (r ∷ rounds) rest
unfolding sent_packets
skip-IsRead r rounds rest v = record {
  bounded = omega (arith, v.bounded);
  no_close = v.no_close;
  one_error = v.one_error;
  in_order = Sublistᴰ.append (sublist_nil (sent_packet r.seen r.message)) v.in_order;
}

first-IsRead :
    (r : Round) (rounds : List Round) (e : Event) (rest : List Event)
    → is_close e ≡ false
    → is_error e ≡ false
    → packet e ≡ sent_packet r.seen r.message
    → IsRead rounds rest
    → IsRead (r ∷ rounds) (e ∷ rest)
unfolding packets sent_packets
first-IsRead r rounds e rest h k same v = record {
  bounded = omega (arith, v.bounded);
  no_close = ground (arith, v.no_close);
  one_error = ground (arith, v.one_error);
  in_order = Sublistᴰ.append (subst (Sublistᴰ (packet e)) same (Sublistᴰ.refl _)) v.in_order;
}

stop-IsRead :
    (r : Round) (rounds : List Round) (e : Event)
    → is_close e ≡ false
    → packet e ≡ sent_packet r.seen r.message
    → IsRead (r ∷ rounds) (e ∷ [])
unfolding packets sent_packets
stop-IsRead r rounds e h same = record {
  bounded = ground arith;
  no_close = ground arith;
  one_error = ground arith;
  in_order =
      Sublistᴰ.append (subst (Sublistᴰ (packet e)) same (Sublistᴰ.refl _))
        (sublist_nil (sent_packets rounds));
}

-- The events of a round that goes on, or not, before `rest`.
unfoldable with_rest : Bool → List Event → List Event → List Event
with_rest goes_on es rest = if goes_on then es ++ rest else es

packets-append : (es more : List Event) → packets (es ++ more) ≡ packets es ++ packets more
unfolding packets
packets-append [] more = refl
packets-append (e ∷ es) more =
    ap (◌++◌ (packet e)) (packets-append es more) ∙ sym (append_assoc (packet e) _ _)

module _ (unmarshal : List ℕ → Decoded) (text_of : ParseError → List ℕ) where
  message_lem :
      (s : State) (m : Incoming)
      → (is_close (message_event unmarshal text_of s m).0 ≡ false)
        × (((message_event unmarshal text_of s m).1 ≡ true
              → is_error (message_event unmarshal text_of s m).0 ≡ false)
            × (packet (message_event unmarshal text_of s m).0 ≡ sent_packet s (some m)))
  unfolding message_event text_event is_close is_error packet sent_packet
  message_lem s m = ground arith

  posts_cases :
      (r : Round) (m : Incoming)
      → (posts unmarshal text_of r m ≡ [])
        ⊎ (posts unmarshal text_of r m ≡ (message_event unmarshal text_of r.seen m).0 ∷ [])
  unfolding posts post_event
  posts_cases r m = ground arith

  taken-IsRead :
      (r : Round) (rounds : List Round) (m : Incoming) (rest : List Event)
      → r.message ≡ some m
      → IsRead rounds rest
      → IsRead (r ∷ rounds) (
          with_rest (message_event unmarshal text_of r.seen m).1 (posts unmarshal text_of r m) rest)
  unfolding with_rest
  taken-IsRead r rounds m rest e v =
      let (open_end, (no_error, same)) = message_lem r.seen m in
      let there = same ∙ ap (sent_packet r.seen) (sym e) in
      elim (Bool-cases (message_event unmarshal text_of r.seen m).1) [
        | inl c ↦
            rw (c, with_rest)
              (elim (posts_cases r m) [
                | inl q ↦ rw q (skip-IsRead r rounds rest v)
                | inr q ↦ rw q (first-IsRead r rounds _ rest open_end (no_error c) there v)
              ])
        | inr c ↦
            rw (c, with_rest)
              (elim (posts_cases r m) [
                | inl q ↦ rw q (nothing-IsRead (r ∷ rounds))
                | inr q ↦ rw q (stop-IsRead r rounds _ open_end there)
              ])
      ]

  read_rounds-IsRead : (rounds : List Round) → IsRead rounds (read_rounds unmarshal text_of rounds)
  unfolding read_rounds with_rest
  read_rounds-IsRead [] = nothing-IsRead []
  read_rounds-IsRead (r ∷ rounds) =
      let rest = read_rounds-IsRead rounds in
      elim (Bool-cases r.ctx_done) [
        | inl d ↦ simp d (nothing-IsRead (r ∷ rounds))
        | inr d ↦ simp d (elim (Option-cases r.message) [
          | inl e ↦ simp e (nothing-IsRead (r ∷ rounds))
          | inr (m, e) ↦ simp e (taken-IsRead r rounds m _ e rest)
        ])
      ]

  -- The event that a message of a session in that state stands for; a text has one where it parses.
  abbrev pub IsEventOf : State → Incoming → Event → Type 0
  IsEventOf connected (binary bytes) e = e ≡ Event.client_hello none
  IsEventOf connected (text bytes) e = e ≡ Event.client_hello (some bytes)
  IsEventOf s (binary bytes) e = e ≡ Event.client_audio bytes
  IsEventOf s (text bytes) e =
      (m : ClientMessage) × (parse_client_message unmarshal bytes ≡ ok m)
      × (e ≡ Event.client_text (some m))

  -- A round that brings a message, with its event, in a session that goes on.
  pub record IsHeard (r : Round) (e : Event) : Type 0 where
    pub goes_on : (r.ctx_done ≡ false) × (r.drops ≡ false)
    pub stands_for : (m : Incoming) × (r.message ≡ some m) × IsEventOf r.seen m e

  -- Rounds each of which brings a message, with the events of these.
  pub data AreHeard : List Round → List Event → Type 0 where
    none_heard : AreHeard [] []
    one_heard :
        {r : Round} {e : Event} {rounds : List Round} {es : List Event}
        → IsHeard r e
        → AreHeard rounds es
        → AreHeard (r ∷ rounds) (e ∷ es)

  -- A round at which the loop ends: the context is done, or the connection gives nothing any more.
  abbrev pub EndsLoop : Round → Type 0
  EndsLoop r = (r.ctx_done ≡ true) ⊎ (r.message ≡ none)

  -- A round that brings a text that does not parse, after the hello, in a session that goes on.
  pub record IsRefused (r : Round) (x : ParseError) : Type 0 where
    pub goes_on : (r.ctx_done ≡ false) × (r.drops ≡ false)
    pub greeted : r.seen ≢ connected
    pub malformed :
        (bytes : List ℕ) × (r.message ≡ some (text bytes))
        × (parse_client_message unmarshal bytes ≡ err x)

  event_lem :
      (s : State) (m : Incoming) (e : Event)
      → IsEventOf s m e
      → message_event unmarshal text_of s m ≡ (e, true)
  unfolding message_event text_event
  event_lem connected (binary bytes) e h = ap (λ x. (x, true)) (sym h)
  event_lem connected (text bytes) e h = ap (λ x. (x, true)) (sym h)
  event_lem ready (binary bytes) e h = ap (λ x. (x, true)) (sym h)
  event_lem ready (text bytes) e (m, good, same) =
      rw (good, text_event) (ap (λ x. (x, true)) (sym same))
  event_lem listening (binary bytes) e h = ap (λ x. (x, true)) (sym h)
  event_lem listening (text bytes) e (m, good, same) =
      rw (good, text_event) (ap (λ x. (x, true)) (sym same))
  event_lem processing (binary bytes) e h = ap (λ x. (x, true)) (sym h)
  event_lem processing (text bytes) e (m, good, same) =
      rw (good, text_event) (ap (λ x. (x, true)) (sym same))
  event_lem speaking (binary bytes) e h = ap (λ x. (x, true)) (sym h)
  event_lem speaking (text bytes) e (m, good, same) =
      rw (good, text_event) (ap (λ x. (x, true)) (sym same))
  event_lem closed (binary bytes) e h = ap (λ x. (x, true)) (sym h)
  event_lem closed (text bytes) e (m, good, same) =
      rw (good, text_event) (ap (λ x. (x, true)) (sym same))

  refused_lem :
      (s : State) (bytes : List ℕ) (x : ParseError)
      → s ≢ connected
      → parse_client_message unmarshal bytes ≡ err x
      → message_event unmarshal text_of s (text bytes)
        ≡ (Event.error 0 (some (text_of x)) true (some policy_violation), false)
  unfolding message_event text_event
  refused_lem connected bytes x h k = absurd (h refl)
  refused_lem ready bytes x h k = rw (k, text_event) refl
  refused_lem listening bytes x h k = rw (k, text_event) refl
  refused_lem processing bytes x h k = rw (k, text_event) refl
  refused_lem speaking bytes x h k = rw (k, text_event) refl
  refused_lem closed bytes x h k = rw (k, text_event) refl

  heard_first :
      (r : Round) (e : Event) (rest : List Round)
      → IsHeard r e
      → read_rounds unmarshal text_of (r ∷ rest) ≡ e ∷ read_rounds unmarshal text_of rest
  unfolding read_rounds posts post_event
  heard_first r e rest v =
      let (m, there, same) = v.stands_for in
      ground (arith, v.goes_on, there, event_lem r.seen m e same)

  read_rounds_heard :
      (before : List Round) (body : List Event) (rest : List Round)
      → AreHeard before body
      → read_rounds unmarshal text_of (before ++ rest) ≡ body ++ read_rounds unmarshal text_of rest
  read_rounds_heard [] body rest none_heard = refl
  read_rounds_heard (r ∷ before) body rest (one_heard {e = e} {es = es} h v) =
      heard_first r e (before ++ rest) h ∙ ap (◌∷◌ e) (read_rounds_heard before es rest v)

  heard_all :
      (rounds : List Round) (body : List Event)
      → AreHeard rounds body
      → read_rounds unmarshal text_of rounds ≡ body
  unfolding read_rounds
  heard_all [] body none_heard = refl
  heard_all (r ∷ rounds) body (one_heard {e = e} {es = es} h v) =
      heard_first r e rounds h ∙ ap (◌∷◌ e) (heard_all rounds es v)

  ends_lem :
      (r : Round) (after : List Round) → EndsLoop r → read_rounds unmarshal text_of (r ∷ after) ≡ []
  unfolding read_rounds
  ends_lem r after h = ground arith

  refused_first :
      (r : Round) (x : ParseError) (after : List Round)
      → IsRefused r x
      → read_rounds unmarshal text_of (r ∷ after)
        ≡ Event.error 0 (some (text_of x)) true (some policy_violation) ∷ []
  unfolding read_rounds posts post_event
  refused_first r x after v =
      let (bytes, there, bad) = v.malformed in
      ground (arith, v.goes_on, there, refused_lem r.seen bytes x v.greeted bad)

  -- The end of the connection, unless the session's context is done and the post dropped.
  abbrev pub end_of_connection : Bool → List Event
  end_of_connection drops =
      if drops
      then []
      else Event.close_request (some normal_closure) (codes "client disconnected") ∷ []

  -- What `readLoop` posts.
  pub record IsWellPosted (rounds : List Round) (drops : Bool) (es : List Event) : Type 0 where
    pub one_each : length es ≤ length rounds + 1
    pub one_close : length (keep is_close es) ≡ length (end_of_connection drops)
    pub one_error : length (keep is_error es) ≤ 1
    pub in_order : Sublistᴰ (packets es) (sent_packets rounds)
    pub closes_last : (body : List Event) × (es ≡ body ++ end_of_connection drops)
    pub posts_each :
        (body : List Event) → AreHeard rounds body → es ≡ body ++ end_of_connection drops
    pub posts_until :
        (before after : List Round) (r : Round) (body : List Event)
        → rounds ≡ before ++ r ∷ after
        → AreHeard before body
        → EndsLoop r
        → es ≡ body ++ end_of_connection drops
    pub refuses :
        (before after : List Round) (r : Round) (x : ParseError) (body : List Event)
        → rounds ≡ before ++ r ∷ after
        → AreHeard before body
        → IsRefused r x
        → es
          ≡ (body ++ Event.error 0 (some (text_of x)) true (some policy_violation) ∷ [])
            ++ end_of_connection drops

  end_lem :
      (drops : Bool)
      → (length (keep is_close (end_of_connection drops)) ≡ length (end_of_connection drops))
        × (keep is_error (end_of_connection drops) ≡ [])
        × (packets (end_of_connection drops) ≡ [])
        × (length (end_of_connection drops) ≤ 1)
  unfolding is_close is_error packets packet
  end_lem drops = ground arith

  read_loop_lem :
      (rounds : List Round) (drops : Bool)
      → read_loop unmarshal text_of rounds drops
        ≡ read_rounds unmarshal text_of rounds ++ end_of_connection drops
  unfolding read_loop post_event
  read_loop_lem rounds drops = ground arith

  ended-IsWellPosted :
      (rounds : List Round) (drops : Bool)
      → IsWellPosted rounds drops (read_rounds unmarshal text_of rounds ++ end_of_connection drops)
  ended-IsWellPosted rounds drops =
      let es = read_rounds unmarshal text_of rounds in
      let end = end_of_connection drops in
      let v = read_rounds-IsRead rounds in
      let (one, no_error, no_packet, short) = end_lem drops in
      record {
        one_each = omega (arith, length-append es end, v.bounded, short);
        one_close = ground (
          arith,
          keep-append is_close es end,
          length-append (keep is_close es) (keep is_close end),
          v.no_close,
          one,
        );
        one_error = ground (
          arith,
          keep-append is_error es end,
          append-nil (keep is_error es),
          v.one_error,
          no_error,
        );
        in_order =
            subst (λ (l : List (List ℕ)). Sublistᴰ l (sent_packets rounds))
              (sym (packets-append es end ∙ rw no_packet (append-nil (packets es)))) v.in_order;
        closes_last = (es, refl);
        posts_each = λ body h. ap (λ l. l ++ end) (heard_all rounds body h);
        posts_until = λ before after r body e h k.
            ap (λ l. l ++ end)
              (ap (read_rounds unmarshal text_of) e
                ∙ read_rounds_heard before body (r ∷ after) h
                ∙ rw (ends_lem r after k) (append-nil body));
        refuses = λ before after r x body e h k.
            ap (λ l. l ++ end)
              (ap (read_rounds unmarshal text_of) e
                ∙ read_rounds_heard before body (r ∷ after) h
                ∙ ap (λ l. body ++ l) (refused_first r x after k));
      }

  -- Whatever the connection gives, `readLoop` posts the end of the connection at last and once, unless the
  -- session's context is done and that post dropped; before it one event for a message at most, one error at
  -- most, and Opus packets in the order in which they came. As long as the context goes on, each message is
  -- posted as its event, in order, up to the end of the connection or to a text that does not parse, for which
  -- an error with the policy violation is posted, and nothing after it but the end.
  pub read_loop-IsWellPosted :
      (rounds : List Round) (drops : Bool)
      → IsWellPosted rounds drops (read_loop unmarshal text_of rounds drops)
  read_loop-IsWellPosted rounds drops =
      subst (IsWellPosted rounds drops) (sym (read_loop_lem rounds drops))
        (ended-IsWellPosted rounds drops)
