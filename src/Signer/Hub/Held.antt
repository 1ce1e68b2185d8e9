-- ===== src/Signer/Hub/Held.antt =====
-- server/signer_hub.go: the requests that a goroutine has taken from a queue and not yet answered.
use vow.Prelude.{
  true, ℕ, suc, ◌<◌, ◌≤◌, ◌≡◌, ◌≢◌, sym, ap, ◌∙◌, subst, arith, String, Bool, Bool-cases,
  Option-cases, inl, inr, Option, none, some, List, [], ◌∷◌, ◌++◌, ◌==◌, All, Bytes, ok, Result,
}
use vow.Signer.Conn.{
  Request, Reply, SignerConn, SignerError, enqueue, take_next, take_inflight, wake, cancel, drain,
  new_signer_conn,
}
use vow.Prelude.Results.{bind_ok, ok_injective}
use vow.Signer.Hub.{
  Fault, close_done, register, unregister, point, fail_all, Hub, write, set_conn, submit, notify,
  receive, give_up, next_request,
}
use vow.Signer.Hub.Waiting.{
  Waits, Distinct, All-imp, All-append, All-cancel, All-append_left, All-append_right, write_ne,
  write_all, send_all-ok,
}
use vow.Signer.Hub.Safety.{queue, Inv}
use vow.Signer.Hub.Safety.Answers.{take_serial, next_serial}

-- A channel that was given out, is empty, and is no queued request's.
pub record IsFree (h : Hub) (ch : ℕ) : Type 0 where
  pub given : ch < h.channels
  pub empty : h.replies ch ≡ none
  pub apart : (p : ℕ) → All (λ (q : Request). q.reply ≢ ch) (queue (h.heap p))

-- The request that is taken from a queue was the only one with its channel.
pub take_request-IsFree :
    (p : ℕ) (id : String) (h : Hub) (took : Request × SignerConn)
    → take_inflight id (h.heap p) ≡ some took
    → Inv h
    → IsFree (set_conn h p took.1) took.0.reply
take_request-IsFree p id h took e v =
    let c = h.heap p in
    let s = v.served p in
    let (split, serial, same) =
      take_serial id c.inflight c.pending c.notify c.done s.serial took e in
    let waiting = subst (All (Waits h.replies h.channels v.owner p)) (sym split) s.waits in
    let distinct = subst Distinct (sym split) s.distinct in
    record {
      given = waiting.0.0;
      empty = waiting.0.1;
      apart =
          write_all
            (λ (q : ℕ) (d : SignerConn). All (λ (x : Request). x.reply ≢ took.0.reply) (queue d))
            h.heap p took.1 distinct.0
            (λ q ne.
              All-imp {P = Waits h.replies h.channels v.owner q}
                {Q = λ (x : Request). x.reply ≢ took.0.reply}
                (λ (x : Request) w f. ne (sym w.2 ∙ ap v.owner f ∙ waiting.0.2)) (queue (h.heap q))
                (v.served q).waits);
    }

-- A queue is replaced by one whose requests are no others.
pub set_conn-IsFree :
    (h : Hub) (p : ℕ) (c : SignerConn) (ch : ℕ)
    → All (λ (q : Request). q.reply ≢ ch) (queue c)
    → IsFree h ch
    → IsFree (set_conn h p c) ch
set_conn-IsFree h p c ch here f = record {
  given = f.given;
  empty = f.empty;
  apart =
      write_all (λ (q : ℕ) (d : SignerConn). All (λ (x : Request). x.reply ≢ ch) (queue d)) h.heap p
        c here (λ q ne. f.apart q);
}

-- Another channel is written or read.
pub replies-IsFree :
    (h : Hub) (replies : ℕ → Option Reply) (ch : ℕ)
    → replies ch ≡ none
    → IsFree h ch
    → IsFree (record h { replies = replies }) ch
replies-IsFree h replies ch e f = record { given = f.given; empty = e; apart = f.apart }

-- A send to a free channel keeps the state of the hub.
pub send-Inv :
    (ch : ℕ) (reply : Reply) (h : Hub)
    → IsFree h ch
    → Inv h
    → Inv (record h { replies = write h.replies ch (some reply) })
send-Inv ch reply h f v = record {
  open_conn = v.open_conn;
  one_did = v.one_did;
  unsent = λ n le. write_ne h.replies ch n (some reply) (later n le) ∙ v.unsent n le;
  owner = v.owner;
  served = λ p. record {
    serial = (v.served p).serial;
    waits = still p (queue (h.heap p)) (f.apart p) (v.served p).waits;
    distinct = (v.served p).distinct;
  };
}
  where
    later : (n : ℕ) → h.channels ≤ n → ch ≢ n
    later n le e = absurd (omega (arith, f.given, le, e))

    still :
        (p : ℕ) (rs : List Request)
        → All (λ (q : Request). q.reply ≢ ch) rs
        → All (Waits h.replies h.channels v.owner p) rs
        → All (Waits (write h.replies ch (some reply)) h.channels v.owner p) rs
    still p [] a w = tt
    still p (r ∷ rs) a w = (
      (w.0.0, write_ne h.replies ch r.reply (some reply) (λ e. a.0 (sym e)) ∙ w.0.1, w.0.2),
      still p rs a.1 w.1,
    )

pub submit-IsFree :
    (p : ℕ) (id : String) (msg : Bytes) (h : Hub) (ch : ℕ)
    → IsFree h ch
    → IsFree (submit p id msg h).1 ch
unfolding submit enqueue
submit-IsFree p id msg h ch f = record {
  given = omega (arith, f.given);
  empty = f.empty;
  apart =
      write_all (λ (q : ℕ) (d : SignerConn). All (λ (x : Request). x.reply ≢ ch) (queue d)) h.heap p
        _ (appended (h.heap p).inflight (h.heap p).pending (f.apart p)) (λ q ne. f.apart q);
}
  where
    appended :
        (before rs : List Request)
        → All (λ (q : Request). q.reply ≢ ch) (before ++ rs)
        → All
            (λ (q : Request). q.reply ≢ ch)
            (before ++ (rs ++ record { request_id = id; msg = msg; reply = h.channels } ∷ []))
    appended before rs a = All-append _ before _ (All-append_left _ before rs a) (
        All-append _ rs _ (All-append_right _ before rs a)
          ((λ e. absurd (omega (arith, f.given, e))), tt))

pub receive-IsFree : (n : ℕ) (h : Hub) (ch : ℕ) → IsFree h ch → IsFree (receive n h).1 ch
unfolding receive
receive-IsFree n h ch f = elim (Option-cases (h.replies n)) [
  | inl e ↦ rw (e, receive) f
  | inr (r, e) ↦
      rw (e, receive) (replies-IsFree h (write h.replies n none) ch (ground (arith, f.empty)) f)
]

-- The same queues and channels, whatever is registered.
same-IsFree :
    (h : Hub) (conns : String → Option ℕ) (allocated ch : ℕ)
    → IsFree h ch
    → IsFree (record h { conns = conns; allocated = allocated }) ch
same-IsFree h conns allocated ch f = record { given = f.given; empty = f.empty; apart = f.apart }

close_done-IsFree : (p : ℕ) (h g : Hub) (ch : ℕ) → close_done p h ≡ ok g → IsFree h ch → IsFree g ch
unfolding close_done
close_done-IsFree p h g ch e f = elim (Bool-cases (h.heap p).done) [
  | inl twice ↦ absurd (ground arith)
  | inr once ↦
      let e0 = rw (close_done, once) at e in
      subst (λ (k : Hub). IsFree k ch) (ok_injective _ g e0)
        (set_conn-IsFree h p (record (h.heap p) { done = true }) ch (f.apart p) f)
]

pub register-IsFree :
    (did : String) (h : Hub) (x : ℕ × Hub) (ch : ℕ)
    → register did h ≡ ok x
    → IsFree h ch
    → IsFree x.1 ch
unfolding register
register-IsFree did h x ch e f = elim (Option-cases (h.conns did)) [
  | inl absent ↦ entered h (rw (register, absent) at e) f
  | inr (old, there) ↦
      let e0 = rw (register, there) at e in
      let (g, shut, e1) = bind_ok (close_done old h) _ x e0 in
      entered g e1 (close_done-IsFree old h g ch shut f)
]
  where
    entered :
        (g : Hub)
        → ◌≡◌ {A = Result Fault (ℕ × Hub)}
            (ok (
              g.allocated,
              record g {
                conns = point g.conns did (some g.allocated);
                heap = write g.heap g.allocated new_signer_conn;
                allocated = suc g.allocated;
              },
            ))
            (ok x)
        → IsFree g ch
        → IsFree x.1 ch
    entered g e f =
        subst (λ (y : ℕ × Hub). IsFree y.1 ch) (ok_injective _ x e)
          (same-IsFree (set_conn g g.allocated new_signer_conn)
            (point g.conns did (some g.allocated)) (suc g.allocated) ch
            (set_conn-IsFree g g.allocated new_signer_conn ch tt f))

pub unregister-IsFree :
    (did : String) (p : ℕ) (h g : Hub) (ch : ℕ)
    → unregister did p h ≡ ok g
    → IsFree h ch
    → IsFree g ch
unfolding unregister
unregister-IsFree did p h g ch e f = elim (Option-cases (h.conns did)) [
  | inl absent ↦
      subst (λ (k : Hub). IsFree k ch) (ok_injective _ g (rw (unregister, absent) at e)) f
  | inr (current, there) ↦ elim (Bool-cases (current == p)) [
    | inr other ↦
        subst (λ (k : Hub). IsFree k ch) (ok_injective _ g (rw (unregister, there, other) at e)) f
    | inl same ↦
        let left = same-IsFree h (point h.conns did none) h.allocated ch f in
        elim (Bool-cases (h.heap p).done) [
          | inl closed ↦
              subst (λ (k : Hub). IsFree k ch)
                (ok_injective _ g (rw (unregister, there, same, closed) at e)) left
          | inr open_ ↦
              subst (λ (k : Hub). IsFree k ch)
                (ok_injective _ g (rw (unregister, there, same, open_) at e))
                (set_conn-IsFree (record h { conns = point h.conns did none }) p
                  (record (h.heap p) { done = true }) ch (f.apart p) left)
        ]
  ]
]

pub notify-IsFree : (p : ℕ) (h : Hub) (ch : ℕ) → IsFree h ch → IsFree (notify p h) ch
unfolding notify wake
notify-IsFree p h ch f = set_conn-IsFree h p _ ch (f.apart p) f

pub give_up-IsFree :
    (p : ℕ) (id : String) (deadline : Bool) (h : Hub) (ch : ℕ)
    → IsFree h ch
    → IsFree (give_up p id deadline h).1 ch
unfolding give_up cancel
give_up-IsFree p id deadline h ch f =
    set_conn-IsFree h p _ ch
      (All-cancel (λ (q : Request). q.reply ≢ ch) id (h.heap p).inflight (h.heap p).pending
        (f.apart p))
      f

pub next_request-IsFree :
    (p : ℕ) (h : Hub) (ch : ℕ) → Inv h → IsFree h ch → IsFree (next_request p h).1 ch
unfolding next_request
next_request-IsFree p h ch v f = elim (Option-cases (take_next (h.heap p))) [
  | inl e ↦ rw (e, next_request) f
  | inr (took, e) ↦
      let c = h.heap p in
      let (same, serial, closed) = next_serial c.pending c.inflight c.notify c.done took e in
      rw (e, next_request)
        (set_conn-IsFree h p took.1 ch
          (subst (All (λ (q : Request). q.reply ≢ ch)) (sym same) (f.apart p)) f)
]

-- Taking a request leaves the other channels free.
pub taken-IsFree :
    (p : ℕ) (id : String) (h : Hub) (took : Request × SignerConn) (ch : ℕ)
    → take_inflight id (h.heap p) ≡ some took
    → Inv h
    → IsFree h ch
    → (took.0.reply ≢ ch) × IsFree (set_conn h p took.1) ch
taken-IsFree p id h took ch e v f =
    let c = h.heap p in
    let (split, serial, same) =
      take_serial id c.inflight c.pending c.notify c.done (v.served p).serial took e in
    let apart = subst (All (λ (q : Request). q.reply ≢ ch)) (sym split) (f.apart p) in
    (apart.0, set_conn-IsFree h p took.1 ch apart.1 f)

pub fail_all-IsFree :
    (p : ℕ) (x : SignerError) (h g : Hub) (ch : ℕ)
    → fail_all p x h ≡ ok g
    → Inv h
    → IsFree h ch
    → IsFree g ch
unfolding fail_all drain
fail_all-IsFree p x h g ch e v f =
    let reply : Reply = record { sig = none; err = some x } in
    let (after, sent, others) =
      send_all-ok (queue (h.heap p)) reply h
        (All-imp (λ r w. w.1) (queue (h.heap p)) (v.served p).waits) (v.served p).distinct in
    let e0 = rw (fail_all, sent) at e in
    let quiet : after ch ≡ none = others ch (f.apart p) ∙ f.empty in
    subst (λ (k : Hub). IsFree k ch) (ok_injective _ g e0)
      (set_conn-IsFree (record h { replies = after }) p (drain (h.heap p)).1 ch tt
        (replies-IsFree h after ch quiet f))
