-- ===== src/Session/Mcp/Requests.antt =====
-- The requests to the device of internal/session/mcp.go, `sendMCPRequest` and `handleIncomingMCP`: the
-- numbers of the requests and the channels of those that wait.
use xiaozhi_esp32_golang_ser.Prelude.{
  ℕ, suc, Bool, false, ◌==◌, Option, none, some, List, [], ◌∷◌, if◌then◌else◌, ◌⊎◌, inl, inr,
}
use xiaozhi_esp32_golang_ser.Prelude.Int.{ℤ, pos, negsuc}
use xiaozhi_esp32_golang_ser.Session.Message.{Text}

pub record RpcError : Type 0 where
  pub code : ℤ
  pub message : Text

pub record Response : Type 0 where
  pub id : ℤ
  pub result : Text
  pub error : Option RpcError

-- `mcpSeq`, which stays far below 2^63, and `pendingMCP`: each waiting request's channel with its backlog, of
-- one response at most. No response is nil, as `handleIncomingMCP` is the only sender.
pub record Requests : Type 0 where
  pub seq : ℕ
  pub pending : List (ℕ × Option Response)

unfoldable pub no_requests : Requests
no_requests = record { seq = 0; pending = [] }

-- `sendMCPRequest` up to the message, where there is a writer: the request gets the number `seq + 1`.
unfoldable pub begin_request : Requests → Requests
begin_request s = record { seq = suc s.seq; pending = (suc s.seq, none) ∷ s.pending }

-- `delete` on the map.
unfoldable pub remove : ℕ → List (ℕ × Option Response) → List (ℕ × Option Response)
remove k [] = []
remove k (slot ∷ pending) = let rest = remove k pending in if slot.0 == k then rest else slot ∷ rest

-- `s.pendingMCP[k]`.
unfoldable pub slot_of : ℕ → List (ℕ × Option Response) → Option (Option Response)
slot_of k [] = none
slot_of k (slot ∷ pending) =
    let rest = slot_of k pending in if slot.0 == k then some slot.1 else rest

pub data McpError : Type 0 where
  write_failed timed_out caller_done session_done : McpError
  rpc_failed : RpcError → McpError

-- How a request ends: with a response in its channel, or with an error of its own.
pub data Ending : Type 0 where
  receives : Ending
  gives_up : McpError → Ending

unfoldable pub outcome : Response → McpError ⊎ Response
outcome r = elim r.error [ none ↦ inr r | some e ↦ inl (rpc_failed e) ]

-- The end of `sendMCPRequest`, with the `delete` that it defers; `none` where it still waits. A response
-- that comes between the two is lost with the channel.
unfoldable pub end_request : Ending → ℕ → Requests → Requests × Option (McpError ⊎ Response)
end_request (gives_up e) k s = (record s { pending = remove k s.pending }, some (inl e))
end_request receives k s = elim (slot_of k s.pending) [
  | none ↦ (s, none)
  | some slot ↦ elim slot [
    | none ↦ (s, none)
    | some r ↦ (record s { pending = remove k s.pending }, some (outcome r))
  ]
]

unfoldable pub has_id : ℕ → ℤ → Bool
has_id k (pos n) = k == n
has_id k (negsuc n) = false

-- The send that does not wait: a channel with a response in it keeps that one.
unfoldable pub keep : Option Response → Response → Option Response
keep (some first) r = some first
keep none r = some r

unfoldable pub offer : Response → List (ℕ × Option Response) → List (ℕ × Option Response)
offer r [] = []
offer r (slot ∷ pending) =
    let rest = offer r pending in
    if has_id slot.0 r.id then (slot.0, keep slot.1 r) ∷ pending else slot ∷ rest

-- `handleIncomingMCP`, with what `json.Unmarshal` makes of the payload, `none` also where there is none.
unfoldable pub handle_incoming_mcp : Option Response → Requests → Requests
handle_incoming_mcp none s = s
handle_incoming_mcp (some r) s =
    if has_id 0 r.id then s else record s { pending = offer r s.pending }

pub data Event : Type 0 where
  begins : Event
  incoming : Option Response → Event
  ends : Ending → ℕ → Event

unfoldable pub step : Requests → Event → Requests
step s begins = begin_request s
step s (incoming r) = handle_incoming_mcp r s
step s (ends ending k) = (end_request ending k s).0

unfoldable pub run : Requests → List Event → Requests
run s [] = s
run s (e ∷ es) = run (step s e) es
