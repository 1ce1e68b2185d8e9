-- ===== src/Signer/Conn/Queue.antt =====
-- The connection against its contract: requests go out one at a time, in the order of arrival.
use mathlib.Core.List.{append_assoc, append-nil, Sublist, sublist-append_left}
use mathlib.Core.List.Sublist
use vow.Prelude.{
  ◌≤◌, ◌≡◌, refl, sym, ap, ◌∙◌, inl, inr, arith, String, str_eq, Bool, true, false, Bool-cases,
  Option, none, some, List, [], ◌∷◌, ◌++◌, length,
}
use vow.Signer.Conn.{
  Request, SignerConn, new_signer_conn, delete, remove_first, enqueue, wake, cancel, take_next,
  take_inflight, drain,
}

-- What happens to a connection: a request arrives, one is given up, the pump looks for the next, an
-- answer for an identifier comes, everything is failed, a wake-up is sent.
pub data Event : Type 0 where
  arrives : Request → Event
  given_up : String → Event
  pumps : Event
  answered : String → Event
  fails_all : Event
  wakes : Event

abbrev after_pump : SignerConn → Option (Request × SignerConn) → SignerConn × List Request
after_pump c none = (c, [])
after_pump c (some (r, d)) = (d, r ∷ [])

abbrev after_answer : SignerConn → Option (Request × SignerConn) → SignerConn
after_answer c none = c
after_answer c (some (r, d)) = d

-- The connection after an event, and what went to the signer.
pub step : SignerConn → Event → SignerConn × List Request
step c (arrives r) = (enqueue r c, [])
step c (given_up id) = (cancel id c, [])
step c pumps = after_pump c (take_next c)
step c (answered id) = (after_answer c (take_inflight id c), [])
step c fails_all = ((drain c).1, [])
step c wakes = (wake c, [])

pub run : SignerConn → List Event → SignerConn × List Request
run c [] = (c, [])
run c (e ∷ es) = let (d, sent) = step c e in let (last, later) = run d es in (last, sent ++ later)

length-delete : (id : String) (rs : List Request) → length (delete id rs) ≤ length rs
unfolding delete
length-delete id [] = omega arith
length-delete id (r ∷ rs) = ground (arith, length-delete id rs)

abbrev IsSerial : SignerConn → Type 0
IsSerial c = length c.inflight ≤ 1

step-IsSerial : (c : SignerConn) (e : Event) → IsSerial c → IsSerial (step c e).0
unfolding step enqueue wake cancel take_next take_inflight drain
step-IsSerial c (arrives r) h = h
step-IsSerial c (given_up id) h = h
step-IsSerial c pumps h = ground arith
step-IsSerial c (answered id) h = ground (arith, length-delete id c.inflight)
step-IsSerial c fails_all h = omega arith
step-IsSerial c wakes h = h

run-keeps-IsSerial : (c : SignerConn) (es : List Event) → IsSerial c → IsSerial (run c es).0
unfolding run
run-keeps-IsSerial c [] h = h
run-keeps-IsSerial c (e ∷ es) h = run-keeps-IsSerial (step c e).0 es (step-IsSerial c e h)

-- Whatever happens to a new connection, at most one request is in flight.
pub run-IsSerial : (es : List Event) → length (run new_signer_conn es).0.inflight ≤ 1
run-IsSerial es = run-keeps-IsSerial new_signer_conn es (omega arith)

-- The requests of a history in the order of their arrival.
arrived : Event → List Request
arrived (arrives r) = r ∷ []
arrived _ = []

pub arrivals : List Event → List Request
arrivals [] = []
arrivals (e ∷ es) = arrived e ++ arrivals es

-- No event of the history gives a request up or fails them.
abbrev is_loyal : Event → Bool
is_loyal (given_up id) = false
is_loyal fails_all = false
is_loyal _ = true

abbrev pub IsLoyal : List Event → Type 0
IsLoyal [] = Unit
IsLoyal (e ∷ es) = (is_loyal e ≡ true) × IsLoyal es

remove_first-sublist : (id : String) (rs : List Request) → Sublist (remove_first id rs) rs
unfolding remove_first
remove_first-sublist id [] = Sublist.refl []
remove_first-sublist id (r ∷ rs) = elim (Bool-cases (str_eq r.request_id id)) [
  | inl hit ↦ rw hit (Sublist.cons r (Sublist.refl rs))
  | inr miss ↦ rw miss (Sublist.cons-cons r (remove_first-sublist id rs))
]

-- An event sends the head of the queue or nothing, and keeps the rest in order.
step_order :
    (c : SignerConn) (e : Event)
    → Sublist ((step c e).1 ++ (step c e).0.pending) (c.pending ++ arrived e)
unfolding step arrived enqueue wake cancel take_next take_inflight drain
step_order c (arrives r) = Sublist.refl _
step_order c (given_up id) = rw append-nil (remove_first-sublist id c.pending)
step_order c pumps = ground (arith, Sublist.refl c.pending, append-nil c.pending)
step_order c (answered id) = ground (arith, Sublist.refl c.pending, append-nil c.pending)
step_order c fails_all = sublist-append_left [] (c.pending ++ [])
step_order c wakes = rw append-nil (Sublist.refl c.pending)

step_order_exact :
    (c : SignerConn) (e : Event)
    → is_loyal e ≡ true
    → (step c e).1 ++ (step c e).0.pending ≡ c.pending ++ arrived e
unfolding step arrived enqueue wake cancel take_next take_inflight drain
step_order_exact c (arrives r) h = refl
step_order_exact c (given_up id) h = cc
step_order_exact c pumps h = ground (arith, append-nil c.pending)
step_order_exact c (answered id) h = ground (arith, append-nil c.pending)
step_order_exact c fails_all h = cc
step_order_exact c wakes h = rw append-nil

regroup_step :
    (c : SignerConn) (e : Event) (es : List Event)
    → (run c (e ∷ es)).1 ++ (run c (e ∷ es)).0.pending
      ≡ (step c e).1 ++ ((run (step c e).0 es).1 ++ (run (step c e).0 es).0.pending)
unfolding run
regroup_step c e es = append_assoc (step c e).1 (run (step c e).0 es).1 (run c (e ∷ es)).0.pending

order_from :
    (c : SignerConn) (es : List Event)
    → Sublist ((run c es).1 ++ (run c es).0.pending) (c.pending ++ arrivals es)
unfolding arrivals
order_from c [] = rw append-nil (unfold run in Sublist.refl c.pending)
order_from c (e ∷ es) =
    rw (regroup_step c e es, ← append_assoc c.pending (arrived e) (arrivals es))
      (Sublist.trans (Sublist.append (Sublist.refl (step c e).1) (order_from (step c e).0 es)) (
        rw (← append_assoc (step c e).1 (step c e).0.pending (arrivals es))
          (Sublist.append (step_order c e) (Sublist.refl (arrivals es)))))

order_exact :
    (c : SignerConn) (es : List Event)
    → IsLoyal es
    → (run c es).1 ++ (run c es).0.pending ≡ c.pending ++ arrivals es
unfolding arrivals
order_exact c [] h = rw append-nil (unfold run in refl)
order_exact c (e ∷ es) h =
    regroup_step c e es
    ∙ ap (◌++◌ (step c e).1) (order_exact (step c e).0 es h.1)
    ∙ sym (append_assoc (step c e).1 (step c e).0.pending (arrivals es))
    ∙ ap (λ l. l ++ arrivals es) (step_order_exact c e h.0)
    ∙ append_assoc c.pending (arrived e) (arrivals es)

-- From a new connection, whatever happens: the requests that were sent to the signer, and then those
-- that still wait, are requests that arrived, in the order of their arrival.
pub run_order :
    (es : List Event)
    → Sublist ((run new_signer_conn es).1 ++ (run new_signer_conn es).0.pending) (arrivals es)
run_order es = order_from new_signer_conn es

-- As long as no request is given up or failed, none is lost: the requests handed to the signer, in
-- order, followed by those still pending, are all the requests that arrived.
pub run_order_exact :
    (es : List Event)
    → IsLoyal es
    → (run new_signer_conn es).1 ++ (run new_signer_conn es).0.pending ≡ arrivals es
run_order_exact es h = order_exact new_signer_conn es h
