-- ===== src/Signer/Hub/Safety/Requests.antt =====
-- server/signer_hub.go: RequestSignature keeps the state of the hub.
use mathlib.Core.List.{append_assoc}
use vow.Prelude.{
  ℕ, suc, ◌≡◌, refl, ap, ◌∙◌, subst, arith, String, Bool, inl, inr, Option, none, [], ◌∷◌, All,
  Bytes, Option-cases,
}
use vow.Signer.Conn.{Request, Reply, SignerConn, enqueue, wake, cancel}
use vow.Signer.Hub.{Hub, write, submit, notify, receive, give_up}
use vow.Signer.Hub.Waiting.{
  Waits, Distinct, All-imp, All-append, Distinct-snoc, All-cancel, Distinct-cancel, write_ne,
  write_self, write_all,
}
use vow.Signer.Hub.Safety.{queue, IsServed, Inv, set_conn-Inv}

module _ (h : Hub) (v : Inv h) (p : ℕ) where
  older :
      (q : ℕ) (r : Request)
      → Waits h.replies h.channels v.owner q r
      → Waits h.replies (suc h.channels) (write v.owner h.channels p) q r
  older q r w = (omega arith, w.1, write_ne v.owner h.channels r.reply p (omega arith) ∙ w.2)

  older-IsServed :
      (q : ℕ) (c : SignerConn)
      → IsServed h.replies h.channels v.owner q c
      → IsServed h.replies (suc h.channels) (write v.owner h.channels p) q c
  older-IsServed q c s = record {
    serial = s.serial;
    waits = All-imp (older q) (queue c) s.waits;
    distinct = s.distinct;
  }

  enqueue-IsServed :
      (r : Request) (c : SignerConn)
      → r.reply ≡ h.channels
      → h.replies h.channels ≡ none
      → IsServed h.replies h.channels v.owner p c
      → IsServed h.replies (suc h.channels) (write v.owner h.channels p) p (enqueue r c)
  unfolding enqueue
  enqueue-IsServed r c new empty s =
      let e = append_assoc c.inflight c.pending (r ∷ []) in
      record {
        serial = s.serial;
        waits = subst (All _) e (
            All-append _ (queue c) (r ∷ []) (All-imp (older p) (queue c) s.waits) (
              (
                ground arith,
                ap h.replies new ∙ empty,
                ap (write v.owner h.channels p) new ∙ write_self v.owner h.channels p,
              ),
              tt,
            ));
        distinct = subst Distinct e (
            Distinct-snoc (queue c) r s.distinct (All-imp (λ q w. ground arith) (queue c) s.waits));
      }

pub submit-Inv : (p : ℕ) (id : String) (msg : Bytes) (h : Hub) → Inv h → Inv (submit p id msg h).1
unfolding submit enqueue
submit-Inv p id msg h v = record {
  open_conn = λ did q e. ((v.open_conn did q e).0, ground (arith, v.open_conn did q e));
  one_did = v.one_did;
  unsent = λ ch le. v.unsent ch (omega arith);
  owner = write v.owner h.channels p;
  served =
      write_all (IsServed h.replies (suc h.channels) (write v.owner h.channels p)) h.heap p _
        (enqueue-IsServed h v p _ (h.heap p) refl (v.unsent h.channels (omega arith)) (v.served p))
        (λ q ne. older-IsServed h v p q (h.heap q) (v.served q));
}

pub notify-Inv : (p : ℕ) (h : Hub) → Inv h → Inv (notify p h)
unfolding notify wake
notify-Inv p h v = set_conn-Inv h p _ v refl (record {
  serial = (v.served p).serial;
  waits = (v.served p).waits;
  distinct = (v.served p).distinct;
})

pub give_up-Inv :
    (p : ℕ) (id : String) (deadline : Bool) (h : Hub) → Inv h → Inv (give_up p id deadline h).1
unfolding give_up cancel
give_up-Inv p id deadline h v =
    let s = v.served p in
    set_conn-Inv h p _ v refl (record {
      serial = s.serial;
      waits = All-cancel _ id (h.heap p).inflight (h.heap p).pending s.waits;
      distinct = Distinct-cancel id (h.heap p).inflight (h.heap p).pending s.distinct;
    })

-- The channels may empty.
emptied :
    (h : Hub) (replies : ℕ → Option Reply)
    → ((ch : ℕ) → h.replies ch ≡ none → replies ch ≡ none)
    → Inv h
    → Inv (record h { replies = replies })
emptied h replies keeps v = record {
  open_conn = v.open_conn;
  one_did = v.one_did;
  unsent = λ ch le. keeps ch (v.unsent ch le);
  owner = v.owner;
  served = λ p. record {
    serial = (v.served p).serial;
    waits = All-imp (λ r w. (w.0, keeps r.reply w.1, w.2)) (queue (h.heap p)) (v.served p).waits;
    distinct = (v.served p).distinct;
  };
}

pub receive-Inv : (ch : ℕ) (h : Hub) → Inv h → Inv (receive ch h).1
unfolding receive
receive-Inv ch h v = elim (Option-cases (h.replies ch)) [
  | inl e ↦ rw (e, receive) v
  | inr (r, e) ↦ rw (e, receive) (emptied h (write h.replies ch none) (λ q f. ground arith) v)
]
