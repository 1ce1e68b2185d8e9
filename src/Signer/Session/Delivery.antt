-- ===== src/Signer/Session/Delivery.antt =====
-- server/handle_signer_connect.go: which signatures reach the handler that waits for one.
use vow.Prelude.{
  ℕ, String, str_eq, eq_iff, ◌⊎◌, Bool, Bool-cases, Option-cases, ◌==◌, some, inl, inr, none, some,
  Bytes, Result, ok, err, ◌≡◌, ◌≢◌, refl, ◌∙◌, ap, arith,
}
use vow.Prelude.Results.{bind_ok}
use vow.Signer.Conn.{Reply, take_inflight}
use vow.Signer.Hub.{
  Hub, Fault, Between, set_conn, deliver_signature, deliver_rejection, deliver, deliver_to, send,
  notify,
}
use vow.WebAuthn.Response.{
  Incoming, verify_webauthn_sign_response, IsSigned, verify_webauthn_sign_response-IsSigned,
}
use vow.Signer.Session.{Setup, Session, on_incoming, on_sign_response, on_sign_reject}

-- The other goroutines may receive from a channel, and send to it nothing meanwhile.
abbrev SendsNothing : (Hub → Hub) → ℕ → Type 0
SendsNothing f ch = (h : Hub) (r : Reply) → (f h).replies ch ≡ some r → h.replies ch ≡ some r

abbrev pub IsElsewhere : Between → ℕ → Type 0
IsElsewhere between ch =
    SendsNothing between.before_take ch
    × SendsNothing between.before_send ch
    × SendsNothing between.before_notify ch

-- A send to a channel that was empty before is its content; another one's is not changed.
sent_or_before :
    (h g : Hub) (ch to : ℕ) (reply got : Reply)
    → send to reply h ≡ ok g
    → g.replies ch ≡ some got
    → (got ≡ reply) ⊎ (h.replies ch ≡ some got)
unfolding send
sent_or_before h g ch to reply got e full = elim (Option-cases (h.replies to)) [
  | inl free ↦ elim (Bool-cases (ch == to)) [
    | inl here ↦ inl (ground arith)
    | inr elsewhere ↦ inr (ground arith)
  ]
  | inr (old, taken) ↦ absurd (ground arith)
]

-- A signature that appears in an empty channel is the one that was delivered.
deliver-carries :
    (between : Between) (did id : String) (reply : Reply) (h : Hub) (ch : ℕ) (x : Bool × Hub)
    (got : Reply)
    → IsElsewhere between ch
    → deliver between did id reply h ≡ ok x
    → h.replies ch ≡ none
    → x.1.replies ch ≡ some got
    → got ≡ reply
unfolding deliver deliver_to notify
deliver-carries between did id reply h ch x got quiet e empty full =
    elim (Option-cases (h.conns did)) [
      | inl none_ ↦ absurd (ground arith)
      | inr (p, some_) ↦
          let h1 = between.before_take h in
          let e1 = rw (deliver, some_) at e in
          elim (Option-cases (take_inflight id (h1.heap p))) [
            | inl idle ↦
                let e2 = rw (deliver_to, idle) at e1 in
                let same : h1 ≡ x.1 = ap hub_of e2 in
                let before = quiet.0 h got (ap (λ (k : Hub). k.replies ch) same ∙ full) in
                absurd (ground (arith, before))
            | inr ((r, c), flying) ↦
                let e2 = rw (deliver_to, flying) at e1 in
                let h2 = between.before_send (set_conn h1 p c) in
                let (g, sent, e3) = bind_ok (send r.reply reply h2) _ x e2 in
                let same : notify p (between.before_notify g) ≡ x.1 = ap hub_of e3 in
                let held = quiet.2 g got (ap (λ (k : Hub). k.replies ch) same ∙ full) in
                elim (sent_or_before h2 g ch r.reply reply got sent held) [
                  | inl carried ↦ carried
                  | inr before ↦
                      let old = quiet.0 h got (quiet.1 (set_conn h1 p c) got before) in
                      absurd (ground (arith, old))
                ]
          ]
    ]
  where
    hub_of : Result Fault (Bool × Hub) → Hub
    hub_of (ok (b, k)) = k
    hub_of (err e) = h

Result-cases : {E A : Type 0} (r : Result E A) → ((a : A) × (r ≡ ok a)) ⊎ ((e : E) × (r ≡ err e))
Result-cases (ok a) = inl (a, refl)
Result-cases (err e) = inr (e, refl)

unchanged :
    (s t : Session) (ch : ℕ) (r : Reply)
    → t.hub ≡ s.hub
    → s.hub.replies ch ≡ none
    → t.hub.replies ch ≢ some r
unchanged s t ch r same empty full = absurd (ground (arith, ap (λ (h : Hub). h.replies ch) same))

response-IsSigned :
    (st : Setup) (inc : Incoming) (s t : Session) (ch : ℕ) (sig : Bytes)
    → on_sign_response st inc s ≡ ok t
    → IsElsewhere st.between ch
    → s.hub.replies ch ≡ none
    → t.hub.replies ch ≡ some (record { sig = some sig; err = none })
    → (payload : String) × (s.pending_payloads inc.request_id ≡ some payload)
      × IsSigned st.lib st.auth_public_key st.signing_public_key payload inc st.hostname sig
unfolding on_sign_response deliver_signature
response-IsSigned st inc s t ch sig e quiet empty full =
    elim (Option-cases (s.pending_payloads inc.request_id)) [
      | inl unknown ↦
          let kept : t ≡ s = ground arith in
          absurd (unchanged s t ch _ (ap (λ (x : Session). x.hub) kept) empty full)
      | inr (payload, known) ↦
          let verdict =
            verify_webauthn_sign_response st.lib st.auth_public_key st.signing_public_key payload
              inc st.hostname in
          elim (Result-cases verdict) [
            | inr (x, failed) ↦
                let kept : t.hub ≡ s.hub = ground arith in
                absurd (unchanged s t ch _ kept empty full)
            | inl (raw, verified) ↦
                let e1 = rw (known, on_sign_response, verified) at e in
                let reply : Reply = record { sig = some raw; err = none } in
                let (x, sent, e2) =
                  bind_ok (deliver st.between st.did inc.request_id reply s.hub) _ t e1 in
                let hub_is : x.1 ≡ t.hub = ground arith in
                let carried =
                  deliver-carries st.between st.did inc.request_id reply s.hub ch x _ quiet sent
                    empty (ap (λ (h : Hub). h.replies ch) hub_is ∙ full) in
                let same : raw ≡ sig = ground (arith, ap (λ (r : Reply). r.sig) carried) in
                (
                  payload,
                  known,
                  verify_webauthn_sign_response-IsSigned st.lib st.auth_public_key
                      st.signing_public_key payload inc st.hostname sig (verified ∙ ap ok same),
                )
          ]
    ]

reject-empty :
    (st : Setup) (inc : Incoming) (s t : Session) (ch : ℕ) (sig : Bytes)
    → on_sign_reject st inc s ≡ ok t
    → IsElsewhere st.between ch
    → s.hub.replies ch ≡ none
    → t.hub.replies ch ≢ some (record { sig = some sig; err = none })
unfolding on_sign_reject deliver_rejection
reject-empty st inc s t ch sig e quiet empty full =
    let reply : Reply = record { sig = none; err = none } in
    let (x, sent, e2) = bind_ok (deliver st.between st.did inc.request_id reply s.hub) _ t e in
    let hub_is : x.1 ≡ t.hub = ground arith in
    let carried =
      deliver-carries st.between st.did inc.request_id reply s.hub ch x _ quiet sent empty
        (ap (λ (h : Hub). h.replies ch) hub_is ∙ full) in
    ground (arith, ap (λ (r : Reply). r.sig) carried)

-- A signature that a message of the signer puts into an empty reply channel belongs to a
-- sign_response, to a request whose payload is recorded, and has passed all the checks of
-- verifyWebAuthnSignResponse for that payload, made on what the message's own fields decode to.
-- Between the steps of the delivery other goroutines may do anything but send to this channel.
pub on_incoming-IsSigned :
    (st : Setup) (inc : Incoming) (s t : Session) (ch : ℕ) (sig : Bytes)
    → on_incoming st inc s ≡ ok t
    → IsElsewhere st.between ch
    → s.hub.replies ch ≡ none
    → t.hub.replies ch ≡ some (record { sig = some sig; err = none })
    → (inc.type_ ≡ "sign_response")
      × (payload : String) × (s.pending_payloads inc.request_id ≡ some payload)
      × IsSigned st.lib st.auth_public_key st.signing_public_key payload inc st.hostname sig
unfolding on_incoming
on_incoming-IsSigned st inc s t ch sig e quiet empty full =
    elim (Bool-cases (str_eq inc.type_ "sign_response")) [
      | inl response ↦
          let signed = response-IsSigned st inc s t ch sig (ground arith) quiet empty full in
          ((eq_iff inc.type_ "sign_response").0 response, signed.0, signed.1, signed.2)
      | inr other ↦ elim (Bool-cases (str_eq inc.type_ "sign_reject")) [
        | inl reject ↦ absurd (reject-empty st inc s t ch sig (ground arith) quiet empty full)
        | inr unknown ↦
            let kept : t ≡ s = ground arith in
            absurd (unchanged s t ch _ (ap (λ (x : Session). x.hub) kept) empty full)
      ]
    ]
