-- ===== src/Session/Writer.antt =====
-- `Writer` of internal/session/writer.go: the bounded queue of messages for one connection, and the one
-- loop that writes them. `A` is a message with its type. The channel is the list `queue`, oldest first;
-- `closed` also says that it is closed. The connection is not modelled: `written` records the messages
-- it took, and each round of the loop takes what `conn.Write` returned. `accepted` is a history variable:
-- the messages that were put into the channel.
pub mod Laws
use xiaozhi_esp32_golang_ser.Prelude.{
  ℕ, Bool, true, false, ◌&&◌, ◌||◌, Option, none, some, List, [], ◌∷◌, ◌++◌, length, take, ltb,
  ◌==◌, if◌then◌else◌,
}

abbrev pub default_write_queue_capacity : ℕ
default_write_queue_capacity = 100

pub data WriteError : Type 0 where
  write_queue_full writer_closed caller_canceled : WriteError
  conn_error : ℕ → WriteError

module _ {ℓ} (A : Type ℓ) where
  pub record Writer : Type ℓ where
    pub queue : List A
    pub capacity : ℕ
    pub cancelled : Bool
    pub closed : Bool
    pub done : Bool
    pub last_err : Option WriteError
    pub written : List A
    pub accepted : List A

module _ {ℓ} {A : Type ℓ} where
  unfoldable pub new_writer : ℕ → Writer A
  new_writer queue_capacity = record {
    queue = [];
    capacity = if queue_capacity == 0 then default_write_queue_capacity else queue_capacity;
    cancelled = false;
    closed = false;
    done = false;
    last_err = none;
    written = [];
    accepted = [];
  }

  -- `ctx_done` says that the caller's context is done. Where both contexts are done `select` may name
  -- either; the model names the writer's.
  unfoldable pub enqueue : Writer A → Bool → A → Writer A × Option WriteError
  enqueue w ctx_done item =
      if w.cancelled
      then (w, some writer_closed)
      else if ctx_done
      then (w, some caller_canceled)
      else if w.closed
      then (w, some writer_closed)
      else if ltb (length w.queue) w.capacity
      then (record w { queue = w.queue ++ item ∷ []; accepted = w.accepted ++ item ∷ [] }, none)
      else (w, some write_queue_full)

  -- What the loop defers: cancel, close the channel, drain it, signal `done`.
  leave : Writer A → Writer A
  leave w = record w { queue = []; cancelled = true; closed = true; done = true }

  set_err : Writer A → WriteError → Writer A
  set_err w e = record w { last_err = elim w.last_err [ none ↦ some e | some old ↦ some old ] }

  write_round : Writer A → List A → Option WriteError → Writer A
  unfolding leave set_err
  write_round w [] result = if w.closed then leave w else w
  write_round w (item ∷ rest) (some e) = leave (set_err (record w { queue = rest }) e)
  write_round w (item ∷ rest) none = record w { queue = rest; written = w.written ++ item ∷ [] }

  -- One round of the loop. Where the context is done and the channel is ready too, `select` takes either:
  -- `sees_cancel` is its choice.
  unfoldable pub write_step : Writer A → Bool → Option WriteError → Writer A
  unfolding write_round
  write_step w sees_cancel result =
      if w.done
      then w
      else if w.cancelled && sees_cancel
      then leave w
      else write_round w w.queue result

  -- `Close`, in the calling goroutine: the loop goes on until the channel is empty.
  unfoldable pub close_queue : Writer A → Writer A
  close_queue w = record w { closed = true }

  unfoldable pub stop : Writer A → Writer A
  stop w = record w { cancelled = true; closed = true; queue = [] }

  unfoldable pub drain_pending : Writer A → Writer A
  drain_pending w = record w { queue = [] }

  -- `Close` seen from its caller, which waits for the loop to leave: the connection took the first
  -- `flushed` of the messages waiting, all of them unless a write failed or `Stop` cut the wait short.
  unfoldable pub close_and_wait : ℕ → Writer A → Writer A
  unfolding leave
  close_and_wait flushed w =
      if w.done then w else leave (record w { written = w.written ++ take flushed w.queue })
