-- ===== src/Signer/Hub.antt =====
-- server/signer_hub.go: SignerHub. The hub maps the DID of an account to a pointer; pointers and
-- reply channels are numbers, given out in order. A reply channel holds one value at most.
-- RequestSignature is split where it leaves its critical section, into parts of its own; `deliver`
-- takes what other goroutines do between its steps as an argument.
pub mod Waiting
pub mod Safety
pub mod Held
pub mod Calls
use vow.Prelude.{
  ℕ, suc, String, str_eq, Bool, true, false, Option, none, some, List, [], ◌∷◌, ◌==◌, if◌then◌else◌,
  Bytes, Result, ok, err,
}
use vow.Prelude.Results.{◌>>=◌}
use vow.Signer.Conn.{
  Request, SignerError, not_connected, rejected, timeout, cancelled, Reply, SignerConn,
  new_signer_conn, enqueue, wake, cancel, take_next, take_inflight, drain,
}

pub record Hub : Type 0 where
  pub conns : String → Option ℕ
  pub heap : ℕ → SignerConn
  pub allocated : ℕ
  pub replies : ℕ → Option Reply
  pub channels : ℕ

-- What Go does not survive: closing a closed channel panics, and a send into a full channel whose
-- receiver is gone never returns.
pub data Fault : Type 0 where
  double_close blocked_send : Fault

abbrev pub new_signer_hub : Hub
new_signer_hub = record {
  conns = λ did. none;
  heap = λ p. new_signer_conn;
  allocated = 0;
  replies = λ ch. none;
  channels = 0;
}

abbrev pub point : (String → Option ℕ) → String → Option ℕ → String → Option ℕ
point conns did p other = if str_eq other did then p else conns other

abbrev pub write {ℓ} : {A : Type ℓ} → (ℕ → A) → ℕ → A → ℕ → A
write m p a q = if q == p then a else m q

abbrev pub set_conn : Hub → ℕ → SignerConn → Hub
set_conn h p c = record h { heap = write h.heap p c }

-- close(conn.done)
unfoldable pub close_done : ℕ → Hub → Result Fault Hub
close_done p h =
    if (h.heap p).done
    then err double_close
    else ok (set_conn h p (record (h.heap p) { done = true }))

abbrev evict : Option ℕ → Hub → Result Fault Hub
evict none h = ok h
evict (some old) h = close_done old h

-- Register: the connection that stood there is closed, and a new one takes its place.
unfoldable pub register : String → Hub → Result Fault (ℕ × Hub)
unfolding close_done
register did h = do
  g ← evict (h.conns did) h
  let p = g.allocated
  ok (
    p,
    record g {
      conns = point g.conns did (some p);
      heap = write g.heap p new_signer_conn;
      allocated = suc p;
    },
  )

-- Unregister: only while the connection is still the registered one, and closing it only once.
unfoldable pub unregister : String → ℕ → Hub → Result Fault Hub
unfolding close_done
unregister did p h = elim (h.conns did) [
  | none ↦ ok h
  | some current ↦
      if current == p
      then (let g : Hub = record h { conns = point h.conns did none } in
          if (g.heap p).done then ok g else close_done p g)
      else ok h
]

unfoldable pub is_connected : String → Hub → Bool
is_connected did h = elim (h.conns did) [ none ↦ false | some p ↦ true ]

-- RequestSignature up to its wait: a fresh channel, and the request at the end of the queue of the
-- connection that the first critical section found. `none` is ErrSignerNotConnected.
unfoldable pub find_conn : String → Hub → Option ℕ
find_conn did h = h.conns did

unfoldable pub submit : ℕ → String → Bytes → Hub → ℕ × Hub
submit p request_id msg h =
    let r : Request = record { request_id = request_id; msg = msg; reply = h.channels } in
    (
      h.channels,
      record h { heap = write h.heap p (enqueue r (h.heap p)); channels = suc h.channels },
    )

unfoldable pub notify : ℕ → Hub → Hub
notify p h = set_conn h p (wake (h.heap p))

-- The three ways in which RequestSignature returns from its wait.
unfoldable pub reply_result : Reply → Result SignerError Bytes
reply_result r = elim r.err [
  | some e ↦ err e
  | none ↦ elim r.sig [ none ↦ err rejected | some sig ↦ ok sig ]
]

unfoldable pub receive : ℕ → Hub → Option (Result SignerError Bytes) × Hub
unfolding reply_result
receive ch h = elim (h.replies ch) [
  | none ↦ (none, h)
  | some r ↦ (some (reply_result r), record h { replies = write h.replies ch none })
]

unfoldable pub dropped : ℕ → Hub → Option SignerError
dropped p h = if (h.heap p).done then some not_connected else none

unfoldable pub give_up : ℕ → String → Bool → Hub → SignerError × Hub
give_up p request_id deadline_exceeded h =
    (if deadline_exceeded then timeout else cancelled, set_conn h p (cancel request_id (h.heap p)))

-- `ch <- reply`
unfoldable pub send : ℕ → Reply → Hub → Result Fault Hub
send ch reply h = elim (h.replies ch) [
  | some r ↦ err blocked_send
  | none ↦ ok (record h { replies = write h.replies ch (some reply) })
]

-- The critical section of `deliver`: the request is no longer in flight.
unfoldable pub take_request : ℕ → String → Hub → Option Request × Hub
take_request p request_id h = elim (take_inflight request_id (h.heap p)) [
  | none ↦ (none, h)
  | some (r, c) ↦ (some r, set_conn h p c)
]

-- What other goroutines do between the steps of `deliver`: its look-up under the hub's lock, the
-- taking of the request under the connection's, the send, and the notification.
pub record Between : Type 0 where
  pub before_take : Hub → Hub
  pub before_send : Hub → Hub
  pub before_notify : Hub → Hub

-- `deliver` behind the look-up of the connection: false where no such request is in flight.
unfoldable pub deliver_to : Between → ℕ → String → Reply → Hub → Result Fault (Bool × Hub)
unfolding send notify
deliver_to between p request_id reply h = elim (take_inflight request_id (h.heap p)) [
  | none ↦ ok (false, h)
  | some (r, c) ↦ (do
    g ← send r.reply reply (between.before_send (set_conn h p c))
    ok (true, notify p (between.before_notify g)))
]

unfoldable pub deliver : Between → String → String → Reply → Hub → Result Fault (Bool × Hub)
deliver between did request_id reply h = elim (h.conns did) [
  | none ↦ ok (false, h)
  | some p ↦ deliver_to between p request_id reply (between.before_take h)
]

unfoldable pub deliver_signature :
    Between → String → String → Bytes → Hub → Result Fault (Bool × Hub)
deliver_signature between did request_id sig =
    deliver between did request_id (record { sig = some sig; err = none })

unfoldable pub deliver_rejection : Between → String → String → Hub → Result Fault (Bool × Hub)
deliver_rejection between did request_id =
    deliver between did request_id (record { sig = none; err = none })

-- The critical section of NextRequest: none where it goes on waiting.
unfoldable pub next_request : ℕ → Hub → Option Request × Hub
next_request p h = elim (take_next (h.heap p)) [
  | none ↦ (none, h)
  | some (r, c) ↦ (some r, set_conn h p c)
]

unfoldable pub send_all : List Request → Reply → Hub → Result Fault Hub
send_all [] reply h = ok h
send_all (r ∷ rs) reply h = send r.reply reply h >>= send_all rs reply

-- failAll
unfoldable pub fail_all : ℕ → SignerError → Hub → Result Fault Hub
fail_all p e h = do
  let (waiting, c) = drain (h.heap p)
  g ← send_all waiting (record { sig = none; err = some e }) h
  ok (set_conn g p c)
