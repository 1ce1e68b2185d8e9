-- ===== src/Signer/Hub/Safety.antt =====
-- server/signer_hub.go: the state that every method of SignerHub keeps; registration keeps it.
pub mod Requests
pub mod Answers
use mathlib.Core.List.{append_assoc, append-nil}
use vow.Prelude.{
  ℕ, suc, ◌+◌, ◌≤◌, ◌<◌, ◌≡◌, ◌≢◌, refl, sym, ap, ◌∙◌, subst, arith, String, str_eq, eq_iff, Bool,
  true, false, Bool-cases, inl, inr, Option, none, some, List, [], ◌∷◌, ◌++◌, ◌==◌, if◌then◌else◌,
  All, length, Bytes, Result, ok, err, Option-cases, str_ne_of_test, ==→eq,
}
use vow.Prelude.Results.{◌>>=◌}
use vow.Signer.Conn.{
  find, delete, put, Request, Reply, SignerConn, SignerError, new_signer_conn, enqueue, wake,
  cancel, take_next, take_inflight, drain,
}
use vow.Signer.Hub.{
  Hub, Fault, new_signer_hub, point, write, set_conn, close_done, register, unregister, submit,
  notify, receive, give_up, send, send_all, next_request, fail_all,
}
use vow.Signer.Hub.Waiting.{
  Waits, Distinct, All-imp, All-append, Distinct-snoc, All-cancel, Distinct-cancel, All-both,
  Distinct-apart, All-append_left, All-append_right, Distinct-append_right, send_all-ok, send_empty,
  write_ne, write_self, write_all,
}

abbrev pub queue : SignerConn → List Request
queue c = c.inflight ++ c.pending

-- One connection: at most one request in flight, and every request waits for an empty channel that
-- no other request of any connection has.
pub record IsServed (replies : ℕ → Option Reply) (channels : ℕ) (owner : ℕ → ℕ) (p : ℕ)
    (c : SignerConn) : Type 0 where
  pub serial : length c.inflight ≤ 1
  pub waits : All (Waits replies channels owner p) (queue c)
  pub distinct : Distinct (queue c)

pub record Inv (h : Hub) : Type 0 where
  pub open_conn :
      (did : String) (p : ℕ) → h.conns did ≡ some p → (p < h.allocated) × ((h.heap p).done ≡ false)
  pub one_did : (a b : String) (p : ℕ) → h.conns a ≡ some p → h.conns b ≡ some p → a ≡ b
  pub unsent : (ch : ℕ) → h.channels ≤ ch → h.replies ch ≡ none
  pub owner : ℕ → ℕ
  pub served : (p : ℕ) → IsServed h.replies h.channels owner p (h.heap p)

pub new_signer_hub-Inv : Inv new_signer_hub
new_signer_hub-Inv = record {
  open_conn = λ did p e. cc;
  one_did = λ a b p e f. cc;
  unsent = λ ch le. refl;
  owner = λ ch. 0;
  served = λ p. record { serial = omega arith; waits = tt; distinct = tt };
}

-- A connection is replaced by one whose requests are served; what is registered stays open.
pub set_conn-Inv :
    (h : Hub) (p : ℕ) (c : SignerConn)
    → (v : Inv h) → c.done ≡ (h.heap p).done
    → IsServed h.replies h.channels v.owner p c
    → Inv (set_conn h p c)
set_conn-Inv h p c v same s = record {
  open_conn = λ did q e. ((v.open_conn did q e).0, ground (arith, v.open_conn did q e));
  one_did = v.one_did;
  unsent = v.unsent;
  owner = v.owner;
  served = write_all (IsServed h.replies h.channels v.owner) h.heap p c s (λ q ne. v.served q);
}

close_open :
    (h : Hub) (p : ℕ)
    → (h.heap p).done ≡ false
    → close_done p h ≡ ok (set_conn h p (record (h.heap p) { done = true }))
unfolding close_done
close_open h p e = rw (e, close_done)

abbrev entered : Hub → String → (ℕ → SignerConn) → Hub
entered h did heap = record h {
  conns = point h.conns did (some h.allocated);
  heap = write heap h.allocated new_signer_conn;
  allocated = suc h.allocated;
}

-- A new connection for `did`, in a heap where only unregistered connections may be closed.
pub enter :
    (h : Hub) (did : String) (heap : ℕ → SignerConn)
    → (v : Inv h) → ((q : ℕ) → IsServed h.replies h.channels v.owner q (heap q))
    → ((other : String) (q : ℕ) → other ≢ did → h.conns other ≡ some q → (heap q).done ≡ false)
    → Inv (entered h did heap)
enter h did heap v served unclosed = record {
  open_conn = λ other q e. elim (Bool-cases (str_eq other did)) [
    | inl hit ↦ ground (arith, v.open_conn other q)
    | inr miss ↦
        let old = v.open_conn other q (ground arith) in
        ground (arith, unclosed other q (str_ne_of_test other did miss) (ground arith), old)
  ];
  one_did = λ a b q e f.
      ground (arith, eq_iff a did, eq_iff b did, v.one_did a b q, v.open_conn a q, v.open_conn b q);
  unsent = v.unsent;
  owner = v.owner;
  served =
      write_all (IsServed h.replies h.channels v.owner) heap h.allocated new_signer_conn
        (record { serial = omega arith; waits = tt; distinct = tt }) (λ q ne. served q);
}

write_ne-done :
    (h : Hub) (p q : ℕ) (c : SignerConn) → p ≢ q → (write h.heap p c q).done ≡ (h.heap q).done
write_ne-done h p q c ne = ap (λ (d : SignerConn). d.done) (write_ne h.heap p q c ne)

pub register-Inv :
    (did : String) (h : Hub) (old : Option ℕ)
    → h.conns did ≡ old
    → Inv h
    → (r : ℕ × Hub) × (register did h ≡ ok r) × Inv r.1
unfolding register
register-Inv did h none e v = (
  (h.allocated, entered h did h.heap),
  rw (e, register),
  enter h did h.heap v v.served λ other q ne o. (v.open_conn other q o).1,
)
register-Inv did h (some old) e v =
    let shut : SignerConn = record (h.heap old) { done = true } in
    let heap : ℕ → SignerConn = write h.heap old shut in
    (
      (h.allocated, entered h did heap),
      rw (e, register, close_open h old (v.open_conn did old e).1),
      enter h did heap v
          (write_all (IsServed h.replies h.channels v.owner) h.heap old shut
            (record {
              serial = (v.served old).serial;
              waits = (v.served old).waits;
              distinct = (v.served old).distinct;
            })
            (λ q ne. v.served q))
          λ other q ne o.
            write_ne-done h old q shut (λ s. ne (v.one_did other did old (o ∙ ap some (sym s)) e))
            ∙ (v.open_conn other q o).1,
    )

abbrev left : Hub → String → ℕ → Hub
left h did p =
    let shut : SignerConn = record (h.heap p) { done = true } in
    record h { conns = point h.conns did none; heap = write h.heap p shut }

pub left-Inv : (h : Hub) (did : String) (p : ℕ) → h.conns did ≡ some p → Inv h → Inv (left h did p)
left-Inv h did p here v = record {
  open_conn = λ other q e. elim (Bool-cases (str_eq other did)) [
    | inl hit ↦ absurd (ground arith)
    | inr miss ↦
        let o : h.conns other ≡ some q = ground arith in
        let ne : p ≢ q =
          λ s. str_ne_of_test other did miss (v.one_did other did q o (here ∙ ap some s)) in
        ((v.open_conn other q o).0, write_ne-done h p q _ ne ∙ (v.open_conn other q o).1)
  ];
  one_did = λ a b q e f.
      ground (arith, eq_iff a did, eq_iff b did, v.one_did a b q, v.open_conn a q, v.open_conn b q);
  unsent = v.unsent;
  owner = v.owner;
  served =
      write_all (IsServed h.replies h.channels v.owner) h.heap p _
        (record {
          serial = (v.served p).serial;
          waits = (v.served p).waits;
          distinct = (v.served p).distinct;
        })
        (λ q ne. v.served q);
}

pub unregister-Inv :
    (did : String) (p : ℕ) (h : Hub) (current : Option ℕ)
    → h.conns did ≡ current
    → Inv h
    → (g : Hub) × (unregister did p h ≡ ok g) × Inv g
unfolding unregister
unregister-Inv did p h none e v = (h, rw (e, unregister), v)
unregister-Inv did p h (some current) e v = elim (Bool-cases (current == p)) [
  | inr other ↦ (h, rw (e, unregister, other), v)
  | inl same ↦
      let here : h.conns did ≡ some p = e ∙ ap some (==→eq current p same) in
      let shut = (v.open_conn did p here).1 in
      (left h did p, rw (e, unregister, same, shut), left-Inv h did p here v)
]
