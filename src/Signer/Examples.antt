-- ===== src/Signer/Examples.antt =====
-- Tests of server/signer_hub.go and server/handle_signer_connect.go at concrete inputs, and the
-- theorems applied there.
use vow.Prelude.{
  ◌≡◌, ◌≤◌, refl, String, true, false, none, some, List, [], ◌∷◌, ◌++◌, replicate, ok, err, length,
}
use vow.Signer.Conn.{
  not_connected, Request, Reply, new_signer_conn, wake, take_inflight, find, delete,
}
use vow.Signer.Conn.Queue.{
  Event, arrives, pumps, answered, wakes, run as run_conn, arrivals, run-IsSerial, run_order_exact,
}
use vow.Signer.Hub.{
  new_signer_hub, Hub, write, deliver_signature, deliver, deliver_to, send, notify,
}
use vow.Signer.Hub.Safety.{new_signer_hub-Inv}
use vow.Signer.Hub.Calls.{
  Call, call_register, call_submit, call_notify, call_next, call_take, call_send, call_receive,
  call_fail_all, Running, IsSound, run as run_calls, run-IsSound,
}
use vow.Signer.Session.{Setup, Session, on_incoming, on_sign_response, remember}
use vow.Signer.Session.Delivery.{on_incoming-IsSigned}
use vow.Signer.Session.Failures.{failed_response-ignored}
use vow.WebAuthn.Response.{IsSigned, Incoming, verify_webauthn_sign_response, missing_field}
use vow.WebAuthn.Examples.{lib, answer}
use vow.WebAuthn.BigEndian.{agree, digits, big_bytes, set_bytes_from, set_bytes, pad}
use vow.WebAuthn.Assertion.{verify_assertion, der_to_raw_ecdsa, decompress_p256}

abbrev one : Request
one = record { request_id = "id"; msg = 1 ∷ []; reply = 0 }

abbrev two : Request
two = record { request_id = "id2"; msg = 2 ∷ []; reply = 1 }

abbrev history : List Event
history = arrives one ∷ pumps ∷ arrives two ∷ pumps ∷ answered "id" ∷ wakes ∷ pumps ∷ []

run-IsSerial_example : length (run_conn new_signer_conn history).0.inflight ≤ 1
run-IsSerial_example = run-IsSerial history

run_order_exact_example :
    (run_conn new_signer_conn history).1 ++ (run_conn new_signer_conn history).0.pending
    ≡ arrivals history
run_order_exact_example =
    run_order_exact history (refl, (refl, (refl, (refl, (refl, (refl, (refl, tt)))))))

abbrev answer_one : Reply
answer_one = record { sig = some (5 ∷ []); err = none }

-- The request is taken by a goroutine that answers it only when the connection has been replaced and
-- another request was submitted to the old one, which is then failed.
abbrev calls : List Call
calls =
    call_register "did"
    ∷ call_submit 0 "id" []
    ∷ call_notify 0
    ∷ call_next 0
    ∷ call_take 0 "id"
    ∷ call_register "did"
    ∷ call_submit 0 "id2" []
    ∷ call_send 0 answer_one
    ∷ call_fail_all 0 not_connected
    ∷ call_receive 0
    ∷ []

abbrev start : Running
start = record { hub = new_signer_hub; held = [] }

start-IsSound : IsSound start
start-IsSound = record { inv = new_signer_hub-Inv; free = tt; distinct = tt }

run-IsSound_example : (t : Running) × (run_calls calls start ≡ ok t) × IsSound t
run-IsSound_example = run-IsSound calls start start-IsSound

abbrev setup : Setup
setup = record {
  lib = lib;
  did = "did";
  conn = 0;
  between = record { before_take = λ h. h; before_send = λ h. h; before_notify = λ h. h };
  auth_public_key = replicate 33 2;
  signing_public_key = [];
  hostname = "host";
  unmarshal_request = λ b. some ("pay", "");
}

abbrev hub : Hub
hub = record {
  conns = λ did. some 0;
  heap = λ p. record { pending = []; inflight = one ∷ []; notify = false; done = false };
  allocated = 1;
  replies = λ ch. none;
  channels = 1;
}

abbrev session : Session
session = record { pending_payloads = λ id. some "pay"; hub = hub }

abbrev signed : Session
signed = record {
  pending_payloads = remember (λ id. some "pay") "id" none;
  hub = record hub {
    heap =
        write
          (write hub.heap 0 (record { pending = []; inflight = []; notify = false; done = false }))
          0 (record { pending = []; inflight = []; notify = true; done = false });
    replies = write hub.replies 0 (some (record { sig = some (replicate 64 115); err = none }));
  };
}

delivers : on_incoming setup answer session ≡ ok signed
unfolding on_incoming on_sign_response deliver_signature deliver deliver_to send notify wake
    take_inflight find delete verify_webauthn_sign_response verify_assertion der_to_raw_ecdsa
    decompress_p256 agree big_bytes digits set_bytes set_bytes_from pad
delivers = refl

on_incoming-IsSigned_example :
    (answer.type_ ≡ "sign_response")
    × (payload : String) × (session.pending_payloads "id" ≡ some payload)
    × IsSigned lib (replicate 33 2) [] payload answer "host" (replicate 64 115)
on_incoming-IsSigned_example =
    on_incoming-IsSigned setup answer session signed 0 (replicate 64 115) delivers
      ((λ h r e. e), (λ h r e. e), (λ h r e. e)) refl refl

abbrev unsigned : Incoming
unsigned = record answer { signature = "" }

refused :
    verify_webauthn_sign_response lib (replicate 33 2) [] "pay" unsigned "host" ≡ err missing_field
unfolding verify_webauthn_sign_response
refused = refl

failed_response-ignored_example :
    (t : Session) × (on_incoming setup unsigned session ≡ ok t)
    × (t.hub ≡ hub)
    × (on_incoming setup answer t ≡ ok t)
failed_response-ignored_example =
    failed_response-ignored setup unsigned answer "pay" missing_field session refl refl refl refl
      refused
