-- ===== src/Signer/Conn.antt =====
-- server/signer_hub.go: one signer connection, its queue and the request in flight. Each definition
-- is what the code does between locking and unlocking `conn.mu`. A reply channel is a number.
pub mod Queue
use vow.Prelude.{
  ℕ, zero, suc, String, str_eq, Bool, true, false, ◌&&◌, Option, none, some, List, [], ◌∷◌, ◌++◌,
  ltb, ◌==◌, if◌then◌else◌, length, Bytes,
}

pub record Request : Type 0 where
  pub request_id : String
  pub msg : Bytes
  pub reply : ℕ

-- The three sentinels of internal/helpers, and the error of a context that is not a deadline.
pub data SignerError : Type 0 where
  not_connected rejected timeout cancelled : SignerError

-- `sig` is none where the signer rejected, `err` is none where nothing failed.
pub record Reply : Type 0 where
  pub sig : Option Bytes
  pub err : Option SignerError

-- `notify` holds a wake-up or none, `done` tells whether the channel is closed.
pub record SignerConn : Type 0 where
  pub pending : List Request
  pub inflight : List Request
  pub notify : Bool
  pub done : Bool

abbrev pub new_signer_conn : SignerConn
new_signer_conn = record { pending = []; inflight = []; notify = false; done = false }

-- `m[requestID]`, `delete(m, requestID)` and `m[requestID] = req` on the map in flight.
unfoldable pub find : String → List Request → Option Request
find id [] = none
find id (r ∷ rs) = if str_eq r.request_id id then some r else find id rs

unfoldable pub delete : String → List Request → List Request
delete id [] = []
delete id (r ∷ rs) = let rest = delete id rs in if str_eq r.request_id id then rest else r ∷ rest

unfoldable pub put : Request → List Request → List Request
unfolding delete
put r rs = r ∷ delete r.request_id rs

-- The first request with the identifier is cut out of the queue.
unfoldable pub remove_first : String → List Request → List Request
remove_first id [] = []
remove_first id (r ∷ rs) = if str_eq r.request_id id then rs else r ∷ remove_first id rs

-- RequestSignature appends to the queue.
unfoldable pub enqueue : Request → SignerConn → SignerConn
enqueue r c = record c { pending = c.pending ++ r ∷ [] }

-- The send that drops the wake-up where one is waiting already.
unfoldable pub wake : SignerConn → SignerConn
wake c = record c { notify = true }

-- RequestSignature gives up on its request.
unfoldable pub cancel : String → SignerConn → SignerConn
unfolding remove_first
cancel id c = record c { pending = remove_first id c.pending }

dequeue : List Request → List Request → SignerConn → Option (Request × SignerConn)
dequeue (r ∷ rest) [] c = some (r, record c { pending = rest; inflight = put r [] })
dequeue _ _ c = none

-- One turn of the loop of NextRequest: the head of the queue, if nothing is in flight.
unfoldable pub take_next : SignerConn → Option (Request × SignerConn)
unfolding dequeue put
take_next c = dequeue c.pending c.inflight c

-- `deliver` takes the request with the identifier out of flight.
unfoldable pub take_inflight : String → SignerConn → Option (Request × SignerConn)
unfolding find delete
take_inflight id c = elim (find id c.inflight) [
  | none ↦ none
  | some r ↦ some (r, record c { inflight = delete id c.inflight })
]

-- failAll empties both and answers these, in this order.
unfoldable pub drain : SignerConn → List Request × SignerConn
drain c = (c.inflight ++ c.pending, record c { pending = []; inflight = [] })
