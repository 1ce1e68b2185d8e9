-- ===== src/Signer/Hub/Calls.antt =====
-- server/signer_hub.go: any number of goroutines call the hub's methods, in steps that may come in any
-- order: each critical section is one step, and so is each send on a reply channel outside of one.
use vow.Prelude.{
  ℕ, suc, zero, String, Bool, Bytes, none, some, Option, Option-cases, inl, inr, List, [], ◌∷◌, All,
  Result, ok, ◌≡◌, ◌≢◌, refl, sym, ap, arith, subst, ◌∙◌,
}
use vow.Prelude.Results.{◌>>=◌}
use vow.Signer.Conn.{Request, Reply, SignerError, take_inflight}
use vow.Signer.Hub.{
  Hub, Fault, set_conn, write, register, unregister, submit, notify, receive, give_up, take_request,
  send, next_request, fail_all,
}
use vow.Signer.Hub.Waiting.{Distinct, All-imp, All-both, send_empty, write_ne}
use vow.Signer.Hub.Safety.{Inv, register-Inv, unregister-Inv}
use vow.Signer.Hub.Safety.Requests.{submit-Inv, notify-Inv, receive-Inv, give_up-Inv}
use vow.Signer.Hub.Safety.Answers.{take_request-Inv, next_request-Inv, fail_all-Inv}
use vow.Signer.Hub.Held.{
  IsFree, take_request-IsFree, taken-IsFree, replies-IsFree, send-Inv, submit-IsFree,
  receive-IsFree, register-IsFree, unregister-IsFree, notify-IsFree, give_up-IsFree,
  next_request-IsFree, fail_all-IsFree,
}

-- The steps. `deliver` is call_take, call_send and call_notify of one goroutine, with whatever others
-- do between them; its look-up changes nothing, and the connection it found may be gone by then.
pub data Call : Type 0 where
  call_register : String → Call
  call_unregister : String → ℕ → Call
  call_submit : ℕ → String → Bytes → Call
  call_notify : ℕ → Call
  call_receive : ℕ → Call
  call_give_up : ℕ → String → Bool → Call
  call_take : ℕ → String → Call
  call_send : ℕ → Reply → Call
  call_next : ℕ → Call
  call_fail_all : ℕ → SignerError → Call

-- The hub, and the requests that some goroutine has taken in `deliver` and not yet answered.
pub record Running : Type 0 where
  pub hub : Hub
  pub held : List Request

-- One of the requests, and the others.
unfoldable pub pick : ℕ → List Request → Option (Request × List Request)
pick i [] = none
pick zero (r ∷ rs) = some (r, rs)
pick (suc i) (r ∷ rs) =
    let rest = pick i rs in elim rest [ none ↦ none | some (q, qs) ↦ some (q, r ∷ qs) ]

abbrev hold : Option Request → List Request → List Request
hold none rs = rs
hold (some r) rs = r ∷ rs

abbrev on_hub : Running → Hub → Running
on_hub s h = record s { hub = h }

unfoldable pub step : Call → Running → Result Fault Running
unfolding register unregister submit receive give_up take_request next_request pick
step (call_register did) s = register did s.hub >>= λ x. ok (on_hub s x.1)
step (call_unregister did p) s = unregister did p s.hub >>= λ h. ok (on_hub s h)
step (call_submit p id msg) s = ok (on_hub s (submit p id msg s.hub).1)
step (call_notify p) s = ok (on_hub s (notify p s.hub))
step (call_receive ch) s = ok (on_hub s (receive ch s.hub).1)
step (call_give_up p id deadline_exceeded) s =
    ok (on_hub s (give_up p id deadline_exceeded s.hub).1)
step (call_take p id) s =
    let (r, h) = take_request p id s.hub in ok (record { hub = h; held = hold r s.held })
step (call_send i reply) s = elim (pick i s.held) [
  | none ↦ ok s
  | some (r, rest) ↦ send r.reply reply s.hub >>= λ h. ok (record { hub = h; held = rest })
]
step (call_next p) s = ok (on_hub s (next_request p s.hub).1)
step (call_fail_all p e) s = fail_all p e s.hub >>= λ h. ok (on_hub s h)

unfoldable pub run : List Call → Running → Result Fault Running
run [] s = ok s
run (c ∷ cs) s = step c s >>= run cs

-- The hub's state is sound, and the requests that were taken have free channels of their own.
pub record IsSound (s : Running) : Type 0 where
  pub inv : Inv s.hub
  pub free : All (λ (r : Request). IsFree s.hub r.reply) s.held
  pub distinct : Distinct s.held

abbrev Goes : Call → Running → Type 0
Goes c s = (t : Running) × (step c s ≡ ok t) × IsSound t

-- A step of the hub that leaves free channels free.
moved :
    (s : Running) (h : Hub)
    → IsSound s
    → Inv h
    → ((ch : ℕ) → IsFree s.hub ch → IsFree h ch)
    → IsSound (on_hub s h)
moved s h v w keeps = record {
  inv = w;
  free = All-imp (λ r f. keeps r.reply f) s.held v.free;
  distinct = v.distinct;
}

the : {A : Type 0} → A → Option A → A
the a none = a
the a (some x) = x

pick-All :
    (P : Request → Type 0) (i : ℕ) (rs : List Request) (x : Request × List Request)
    → pick i rs ≡ some x
    → All P rs
    → P x.0 × All P x.1
unfolding pick the
pick-All P i [] x e a = absurd (ground arith)
pick-All P zero (r ∷ rs) x e a =
    subst (λ (y : Request × List Request). P y.0 × All P y.1) (ap (the x) e) a
pick-All P (suc i) (r ∷ rs) x e a = elim (Option-cases (pick i rs)) [
  | inl missing ↦ absurd (ground arith)
  | inr (y, found) ↦
      let e0 = rw (pick, found) at e in
      let here = pick-All P i rs y found a.1 in
      subst (λ (z : Request × List Request). P z.0 × All P z.1) (ap (the x) e0)
        (here.0, (a.0, here.1))
]

-- What is picked has a channel that none of the others has.
pick-Distinct :
    (i : ℕ) (rs : List Request) (x : Request × List Request)
    → pick i rs ≡ some x
    → Distinct rs
    → All (λ (q : Request). q.reply ≢ x.0.reply) x.1 × Distinct x.1
unfolding pick the
pick-Distinct i [] x e d = absurd (ground arith)
pick-Distinct zero (r ∷ rs) x e d =
    subst
      (λ (y : Request × List Request).
        All (λ (q : Request). q.reply ≢ y.0.reply) y.1 × Distinct y.1)
      (ap (the x) e) d
pick-Distinct (suc i) (r ∷ rs) x e d = elim (Option-cases (pick i rs)) [
  | inl missing ↦ absurd (ground arith)
  | inr (y, found) ↦
      let e0 = rw (pick, found) at e in
      let apart = pick-All (λ (q : Request). q.reply ≢ r.reply) i rs y found d.0 in
      let here = pick-Distinct i rs y found d.1 in
      subst
        (λ (z : Request × List Request).
          All (λ (q : Request). q.reply ≢ z.0.reply) z.1 × Distinct z.1)
        (ap (the x) e0) (((λ f. apart.0 (sym f)), here.0), (apart.1, here.1))
]

take-Goes : (p : ℕ) (id : String) (s : Running) → IsSound s → Goes (call_take p id) s
unfolding step take_request
take-Goes p id s v = elim (Option-cases (take_inflight id (s.hub.heap p))) [
  | inl e ↦ (s, rw (step, take_request, e) refl, v)
  | inr (took, e) ↦
      let h = set_conn s.hub p took.1 in
      let w = rw (take_request, e) at (take_request-Inv p id s.hub v.inv) in
      (
        record { hub = h; held = took.0 ∷ s.held },
        rw (step, take_request, e) refl,
        record {
          inv = w;
          free = (
            take_request-IsFree p id s.hub took e v.inv,
            All-imp (λ r f. (taken-IsFree p id s.hub took r.reply e v.inv f).1) s.held v.free,
          );
          distinct = (
            All-imp {P = λ (r : Request). IsFree s.hub r.reply}
                {Q = λ (r : Request). r.reply ≢ took.0.reply}
                (λ r f same. (taken-IsFree p id s.hub took r.reply e v.inv f).0 (sym same)) s.held
                v.free,
            v.distinct,
          );
        },
      )
]

send-Goes : (i : ℕ) (reply : Reply) (s : Running) → IsSound s → Goes (call_send i reply) s
unfolding step
send-Goes i reply s v = elim (Option-cases (pick i s.held)) [
  | inl e ↦ (s, rw (step, e) refl, v)
  | inr (x, e) ↦
      let mine = pick-All (λ (r : Request). IsFree s.hub r.reply) i s.held x e v.free in
      let apart = pick-Distinct i s.held x e v.distinct in
      let sent = send_empty s.hub x.0.reply reply mine.0.empty in
      let after = write s.hub.replies x.0.reply (some reply) in
      (
        record { hub = record s.hub { replies = after }; held = x.1 },
        rw (step, e, sent) refl,
        record {
          inv = send-Inv x.0.reply reply s.hub mine.0 v.inv;
          free =
              All-imp {P = λ (r : Request). IsFree s.hub r.reply × (r.reply ≢ x.0.reply)}
                {Q = λ (r : Request). IsFree (record s.hub { replies = after }) r.reply}
                (λ r both.
                  replies-IsFree s.hub after r.reply
                    (write_ne s.hub.replies x.0.reply r.reply (some reply) (λ f. both.1 (sym f))
                      ∙ both.0.empty)
                    both.0)
                x.1 (All-both _ _ x.1 mine.1 apart.0);
          distinct = apart.1;
        },
      )
]

step-Goes : (c : Call) (s : Running) → IsSound s → Goes c s
unfolding step
step-Goes (call_register did) s v =
    let (x, e, w) = register-Inv did s.hub (s.hub.conns did) refl v.inv in
    (on_hub s x.1, rw (step, e) refl, moved s x.1 v w (λ ch f. register-IsFree did s.hub x ch e f))
step-Goes (call_unregister did p) s v =
    let (h, e, w) = unregister-Inv did p s.hub (s.hub.conns did) refl v.inv in
    (on_hub s h, rw (step, e) refl, moved s h v w (λ ch f. unregister-IsFree did p s.hub h ch e f))
step-Goes (call_submit p id msg) s v = (
  _,
  refl,
  moved s _ v (submit-Inv p id msg s.hub v.inv) (λ ch f. submit-IsFree p id msg s.hub ch f),
)
step-Goes (call_notify p) s v =
    (_, refl, moved s _ v (notify-Inv p s.hub v.inv) (λ ch f. notify-IsFree p s.hub ch f))
step-Goes (call_receive n) s v =
    (_, refl, moved s _ v (receive-Inv n s.hub v.inv) (λ ch f. receive-IsFree n s.hub ch f))
step-Goes (call_give_up p id d) s v = (
  _,
  refl,
  moved s _ v (give_up-Inv p id d s.hub v.inv) (λ ch f. give_up-IsFree p id d s.hub ch f),
)
step-Goes (call_take p id) s v = take-Goes p id s v
step-Goes (call_send i reply) s v = send-Goes i reply s v
step-Goes (call_next p) s v = (
  _,
  refl,
  moved s _ v (next_request-Inv p s.hub v.inv) (λ ch f. next_request-IsFree p s.hub ch v.inv f),
)
step-Goes (call_fail_all p x) s v =
    let (h, e, w) = fail_all-Inv p x s.hub v.inv in
    (
      on_hub s h,
      rw (step, e) refl,
      moved s h v w (λ ch f. fail_all-IsFree p x s.hub h ch e v.inv f),
    )

-- From a sound state - the registered connections are open, each connection has at most one request
-- in flight, and the requests that wait, or that a goroutine has taken and not yet answered, have
-- empty reply channels of their own - every list of steps of the hub's methods, in whatever order,
-- runs to its end and leaves such a state: no step closes a channel twice, none sends into a full one.
-- What the handler of a connection itself sends to a request that is still in flight, when it cannot
-- write the frame, is no step of these methods.
pub run-IsSound :
    (cs : List Call) (s : Running) → IsSound s → (t : Running) × (run cs s ≡ ok t) × IsSound t
unfolding run
run-IsSound [] s v = (s, refl, v)
run-IsSound (c ∷ cs) s v =
    let (t, e, w) = step-Goes c s v in let (u, f, x) = run-IsSound cs t w in (u, rw (run, e) f, x)
