-- ===== src/Events/Examples.antt =====
-- Tests of server/persist.go at concrete events, and the theorems applied there.
use vow.Prelude.{
  ℕ, ◌+◌, ◌≡◌, refl, arith, true, none, some, List, [], ◌∷◌, ◌++◌, length, Result, ok,
}
use vow.Events.{
  Body, commit, identity, Event, repo_event, other_event, EventRecord, DbPersister, PersistError,
  Codec, serialize_event, deserialize_event, event_type,
}
use vow.Events.Log.{IsLog, Input, persist_all, persist_all-IsLog, deserialize_event-roundtrip}
use vow.Events.Playback.{after, playback, deliver_all, playback-deliver_all}

abbrev codec : Codec
codec = record {
  marshal = λ k b. none;
  unmarshal = λ k bs. some (record { seq = length bs; did = "did:plc:a"; rest = bs });
}

-- A codec that writes every body.
abbrev stamps : Codec
stamps = record {
  marshal = λ k b. some (b.seq ∷ []);
  unmarshal = λ k bs. some (record { seq = 4; did = ""; rest = [] });
}

abbrev row : ℕ → EventRecord
row n = record { seq = n; created_at = 0; did = "did:plc:a"; type_ = "commit"; data_ = n ∷ [] }

abbrev rows : List EventRecord
rows = row 3 ∷ row 5 ∷ row 9 ∷ []

abbrev inputs : List Input
inputs =
    record { event = other_event; now = 7; up = true }
    ∷ record {
      event = repo_event commit (record { seq = 0; did = "did:plc:a"; rest = [] });
      now = 8;
      up = true;
    }
    ∷ []

abbrev start : DbPersister
start = record { event_records = rows; seq = 9; broadcast = [] }

persist_all-IsLog_example :
    IsLog (persist_all stamps inputs start)
    × ((persist_all stamps inputs start).seq ≡ 9 + length inputs)
persist_all-IsLog_example = persist_all-IsLog stamps inputs start (omega arith) (
  ((omega arith, (omega arith, tt)), ((omega arith, tt), (tt, tt))),
  (omega arith, (omega arith, (omega arith, tt))),
)

collect : Event → List Event → Result PersistError (List Event)
collect e es = ok (es ++ e ∷ [])

playback-deliver_all_example :
    playback codec collect 3 rows 4 [] ≡ deliver_all codec collect (after 4 rows) 4 []
unfolding after
playback-deliver_all_example =
    playback-deliver_all codec collect 3 rows 4 []
      ((omega arith, (omega arith, tt)), ((omega arith, tt), (tt, tt))) (omega arith)

abbrev body : Body
body = record { seq = 4; did = ""; rest = [] }

serializes : serialize_event stamps (repo_event identity body) ≡ ok (4 ∷ [])
unfolding serialize_event
serializes = refl

deserialize_event-roundtrip_example :
    deserialize_event stamps (event_type identity) (4 ∷ []) ≡ ok (repo_event identity body)
deserialize_event-roundtrip_example =
    deserialize_event-roundtrip stamps identity body (4 ∷ []) (λ bs e. refl) serializes
