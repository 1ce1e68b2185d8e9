-- ===== src/Signer/Session/Failures.antt =====
-- server/handle_signer_connect.go: a response that fails, and a frame that cannot be written.
use vow.Prelude.{
  ℕ, String, str_eq, eq_refl, Bool, true, false, none, some, List, ◌∷◌, if◌then◌else◌, ok, err, ◌≡◌,
  refl, ◌∙◌, ap, arith, ◌==◌,
}
use vow.Signer.Conn.{Request, Reply, SignerConn, SignerError, not_connected, drain}
use vow.Signer.Hub.{
  Hub, blocked_send, fail_all, send, send_all, write, point, unregister, close_done,
}
use vow.Signer.Hub.Waiting.{write_self, send_empty}
use vow.WebAuthn.Response.{Incoming, ResponseError, verify_webauthn_sign_response}
use vow.Signer.Session.{
  Setup, Session, on_incoming, on_sign_response, on_sign_reject, remember, on_request, leave,
}

incoming_response :
    (st : Setup) (inc : Incoming) (s : Session)
    → inc.type_ ≡ "sign_response"
    → on_incoming st inc s ≡ on_sign_response st inc s
unfolding on_incoming
incoming_response st inc s e =
    ap
      (λ (b : Bool).
        if b
        then on_sign_response st inc s
        else if str_eq inc.type_ "sign_reject"
        then on_sign_reject st inc s
        else ok s)
      (ap (λ (t : String). str_eq t "sign_response") e)

-- A response that fails to verify forgets its payload and leaves the hub as it is, so that the
-- request stays in flight; every later response to that request changes nothing, even a valid one.
pub failed_response-ignored :
    (st : Setup) (inc later : Incoming) (payload : String) (e : ResponseError) (s : Session)
    → inc.type_ ≡ "sign_response"
    → later.type_ ≡ "sign_response"
    → later.request_id ≡ inc.request_id
    → s.pending_payloads inc.request_id ≡ some payload
    → verify_webauthn_sign_response st.lib st.auth_public_key st.signing_public_key payload inc
        st.hostname
      ≡ err e
    → (t : Session) × (on_incoming st inc s ≡ ok t)
      × (t.hub ≡ s.hub)
      × (on_incoming st later t ≡ ok t)
unfolding on_sign_response
failed_response-ignored st inc later payload e s a b same known failed = (
  record s { pending_payloads = remember s.pending_payloads inc.request_id none },
  incoming_response st inc s a ∙ rw (known, on_sign_response, failed) refl,
  refl,
  incoming_response st later _ b ∙ rw (same, eq_refl inc.request_id, on_sign_response) refl,
)

unregister_current :
    (h : Hub) (did : String) (p : ℕ)
    → h.conns did ≡ some p
    → (h.heap p).done ≡ false
    → unregister did p h
      ≡ ok (record h {
        conns = point h.conns did none;
        heap = write h.heap p (record (h.heap p) { done = true });
      })
unfolding unregister close_done
unregister_current h did p here open_ =
    let same : (p == p) ≡ true = ground arith in rw (here, unregister, same, open_, close_done) refl

send_full :
    (h : Hub) (ch : ℕ) (old reply : Reply)
    → h.replies ch ≡ some old
    → send ch reply h ≡ err blocked_send
unfolding send
send_full h ch old reply e = rw (e, send) refl

fail_all-blocks :
    (h : Hub) (p : ℕ) (r : Request) (rest : List Request) (old : Reply) (e : SignerError)
    → (h.heap p).inflight ≡ r ∷ rest
    → h.replies r.reply ≡ some old
    → fail_all p e h ≡ err blocked_send
unfolding fail_all drain send_all
fail_all-blocks h p r rest old e flying full =
    rw (flying, send_full h r.reply old (record { sig = none; err = some e }) full) refl

-- The frame of the request in flight cannot be written, while the connection is registered: the
-- handler answers the request, and failAll answers it a second time, into the channel that is full
-- as long as nobody receives. Where RequestSignature has given up before, nobody ever does.
pub on_request-blocks :
    (st : Setup) (r : Request) (rest : List Request) (s : Session)
    → (s.hub.heap st.conn).inflight ≡ r ∷ rest
    → (s.hub.heap st.conn).done ≡ false
    → s.hub.conns st.did ≡ some st.conn
    → s.hub.replies r.reply ≡ none
    → on_request st false r s ≡ err blocked_send
unfolding on_request leave
on_request-blocks st r rest s flying open_ here empty =
    let answer : Reply = record { sig = none; err = some not_connected } in
    let g : Hub = record s.hub { replies = write s.hub.replies r.reply (some answer) } in
    let k : Hub = record g {
      conns = point s.hub.conns st.did none;
      heap = write s.hub.heap st.conn (record (s.hub.heap st.conn) { done = true });
    } in
    let left : unregister st.did st.conn g ≡ ok k =
      unregister_current (record g { heap = s.hub.heap }) st.did st.conn here open_ in
    let stuck =
      fail_all-blocks k st.conn r rest answer not_connected
        (ap (λ (c : SignerConn). c.inflight) (write_self s.hub.heap st.conn _) ∙ flying)
        (write_self s.hub.replies r.reply (some answer)) in
    rw (send_empty s.hub r.reply answer empty, left, stuck) refl
