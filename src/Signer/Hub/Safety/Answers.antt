-- ===== src/Signer/Hub/Safety/Answers.antt =====
-- server/signer_hub.go: answering and handing out requests keeps the state of the hub.
use mathlib.Core.List.{append-nil}
use vow.Prelude.{
  ℕ, ◌≤◌, ◌≡◌, ◌≢◌, refl, sym, ap, ◌∙◌, subst, arith, String, Bool, inl, inr, Option, none, some,
  List, [], ◌∷◌, ◌++◌, All, length, ok, Option-cases,
}
use vow.Signer.Conn.{
  find, delete, put, Request, Reply, SignerConn, SignerError, take_next, take_inflight, drain,
}
use vow.Signer.Hub.{Hub, set_conn, take_request, next_request, fail_all}
use vow.Signer.Hub.Waiting.{
  Waits, Distinct, All-imp, All-both, Distinct-apart, All-append_left, All-append_right,
  Distinct-append_right, send_all-ok, write_all,
}
use vow.Signer.Hub.Safety.{queue, IsServed, Inv, set_conn-Inv}

-- Requests of one connection are answered and leave its queue.
pub answered-Inv :
    (h : Hub) (p : ℕ) (rs : List Request) (c : SignerConn) (after : ℕ → Option Reply)
    → (v : Inv h) → ((ch : ℕ) → All (λ (r : Request). r.reply ≢ ch) rs → after ch ≡ h.replies ch)
    → rs ++ queue c ≡ queue (h.heap p)
    → length c.inflight ≤ 1
    → c.done ≡ (h.heap p).done
    → Inv (set_conn (record h { replies = after }) p c)
answered-Inv h p rs c after v others split serial same =
    let waiting =
      subst (All (Waits h.replies h.channels v.owner p)) (sym split) (v.served p).waits in
    let apart = subst Distinct (sym split) (v.served p).distinct in
    let gone = All-append_left (Waits h.replies h.channels v.owner p) rs (queue c) waiting in
    record {
      open_conn = λ did q e. ((v.open_conn did q e).0, ground (arith, v.open_conn did q e));
      one_did = v.one_did;
      unsent = λ ch le. others ch (All-imp (λ r w. ground arith) rs gone) ∙ v.unsent ch le;
      owner = v.owner;
      served =
          write_all (IsServed after h.channels v.owner) h.heap p c
            (record {
              serial = serial;
              waits =
                  All-imp (λ r both. (both.0.0, others r.reply both.1 ∙ both.0.1, both.0.2))
                    (queue c)
                    (All-both _ _ (queue c) (All-append_right _ rs (queue c) waiting)
                      (Distinct-apart rs (queue c) apart));
              distinct = Distinct-append_right rs (queue c) apart;
            })
            (λ q ne. record {
              serial = (v.served q).serial;
              waits =
                  All-imp
                    (λ r w. (
                      w.0,
                      others r.reply
                            (All-imp (λ x own e. ne (sym w.2 ∙ ap v.owner (sym e) ∙ own.2)) rs gone)
                          ∙ w.1,
                      w.2,
                    ))
                    (queue (h.heap q)) (v.served q).waits;
              distinct = (v.served q).distinct;
            });
    }

pub take_serial :
    (id : String) (inflight pending : List Request) (woken closed : Bool)
    → length inflight ≤ 1
    → let c : SignerConn = record {
      pending = pending;
      inflight = inflight;
      notify = woken;
      done = closed;
    } in
      (took : Request × SignerConn)
      → take_inflight id c ≡ some took
      → (took.0 ∷ queue took.1 ≡ queue c) × (length took.1.inflight ≤ 1) × (took.1.done ≡ c.done)
unfolding take_inflight find delete
take_serial id [] pending woken closed le took e = absurd (ground arith)
take_serial id (r ∷ []) pending woken closed le took e = ground arith
take_serial id (r ∷ q ∷ rs) pending woken closed le took e = absurd (omega arith)

pub take_request-Inv : (p : ℕ) (id : String) (h : Hub) → Inv h → Inv (take_request p id h).1
unfolding take_request
take_request-Inv p id h v = elim (Option-cases (take_inflight id (h.heap p))) [
  | inl e ↦ rw (e, take_request) v
  | inr (took, e) ↦
      let c = h.heap p in
      let s = v.served p in
      let (split, serial, same) =
        take_serial id c.inflight c.pending c.notify c.done s.serial took e in
      rw (e, take_request)
        (set_conn-Inv h p took.1 v same (record {
          serial = serial;
          waits = (subst (All (Waits h.replies h.channels v.owner p)) (sym split) s.waits).1;
          distinct = (subst Distinct (sym split) s.distinct).1;
        }))
]

pub next_serial :
    (pending inflight : List Request) (woken closed : Bool)
    → let c : SignerConn = record {
      pending = pending;
      inflight = inflight;
      notify = woken;
      done = closed;
    } in
      (took : Request × SignerConn)
      → take_next c ≡ some took
      → (queue took.1 ≡ queue c) × (length took.1.inflight ≤ 1) × (took.1.done ≡ c.done)
unfolding take_next put delete
next_serial [] inflight woken closed took e = absurd (ground arith)
next_serial (r ∷ rs) [] woken closed took e = ground arith
next_serial (r ∷ rs) (q ∷ qs) woken closed took e = absurd (ground arith)

pub next_request-Inv : (p : ℕ) (h : Hub) → Inv h → Inv (next_request p h).1
unfolding next_request
next_request-Inv p h v = elim (Option-cases (take_next (h.heap p))) [
  | inl e ↦ rw (e, next_request) v
  | inr (took, e) ↦
      let c = h.heap p in
      let s = v.served p in
      let (same, serial, closed) = next_serial c.pending c.inflight c.notify c.done took e in
      rw (e, next_request)
        (set_conn-Inv h p took.1 v closed (record {
          serial = serial;
          waits = subst (All (Waits h.replies h.channels v.owner p)) (sym same) s.waits;
          distinct = subst Distinct (sym same) s.distinct;
        }))
]

pub fail_all-Inv :
    (p : ℕ) (e : SignerError) (h : Hub) → Inv h → (g : Hub) × (fail_all p e h ≡ ok g) × Inv g
unfolding fail_all drain
fail_all-Inv p e h v =
    let (after, sent, others) =
      send_all-ok (queue (h.heap p)) (record { sig = none; err = some e }) h
        (All-imp (λ r w. w.1) (queue (h.heap p)) (v.served p).waits) (v.served p).distinct in
    (
      set_conn (record h { replies = after }) p (drain (h.heap p)).1,
      rw sent refl,
      answered-Inv h p (queue (h.heap p)) (drain (h.heap p)).1 after v others
          (append-nil (queue (h.heap p))) (omega arith) refl,
    )
