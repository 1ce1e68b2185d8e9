-- ===== src/Events.antt =====
-- server/persist.go: the event log. The table is the list of its rows in the order of the primary
-- key `seq`; an int64 that is not negative is a number below 2^63.
pub mod Log
pub mod Playback
pub mod Examples
use vow.Prelude.{
  ℕ, suc, ◌+◌, ◌%◌, ◌^◌, String, str_eq, Bool, true, false, Option, none, some, List, [], ◌∷◌, ◌++◌,
  ltb, ◌==◌, if◌then◌else◌, Bytes, Result, ok, err,
}
use vow.Prelude.Results.{◌>>=◌, require}

-- A commit, sync, identity or account event: what Persist reads and writes, and the other fields.
pub record Body : Type 0 where
  pub seq : ℕ
  pub did : String
  pub rest : Bytes

pub data Kind : Type 0 where
  commit sync identity account : Kind

-- XRPCStreamEvent: one of the four, or another event.
pub data Event : Type 0 where
  repo_event : Kind → Body → Event
  other_event : Event

pub record EventRecord : Type 0 where
  pub seq : ℕ
  pub created_at : ℕ
  pub did : String
  pub type_ : String
  pub data_ : Bytes

pub record DbPersister : Type 0 where
  pub event_records : List EventRecord
  pub seq : ℕ
  pub broadcast : List Event

pub data PersistError : Type 0 where
  unknown_event_type failed_to_serialize failed_to_persist failed_to_deserialize : PersistError

-- MarshalCBOR and UnmarshalCBOR of the four types.
pub record Codec : Type 0 where
  pub marshal : Kind → Body → Option Bytes
  pub unmarshal : Kind → Bytes → Option Body

unfoldable pub serialize_event : Codec → Event → Result PersistError Bytes
serialize_event codec (repo_event kind body) = require (codec.marshal kind body) failed_to_serialize
serialize_event codec other_event = err unknown_event_type

abbrev pub event_type : Kind → String
event_type commit = "commit"
event_type sync = "sync"
event_type identity = "identity"
event_type account = "account"

abbrev pub kind_of : String → Option Kind
kind_of t =
    if str_eq t "commit"
    then some commit
    else if str_eq t "sync"
    then some sync
    else if str_eq t "identity"
    then some identity
    else if str_eq t "account"
    then some account
    else none

unfoldable pub deserialize_event : Codec → String → Bytes → Result PersistError Event
deserialize_event codec type_ data_ = do
  kind ← require (kind_of type_) unknown_event_type
  body ← require (codec.unmarshal kind data_) failed_to_deserialize
  ok (repo_event kind body)

-- INSERT: none where the key is taken.
unfoldable pub insert_row : EventRecord → List EventRecord → Option (List EventRecord)
insert_row r [] = some (r ∷ [])
insert_row r (x ∷ xs) =
    let rest = insert_row r xs in
    if ltb r.seq x.seq
    then some (r ∷ x ∷ xs)
    else if r.seq == x.seq
    then none
    else elim rest [ none ↦ none | some ys ↦ some (x ∷ ys) ]

abbrev pub next_seq : ℕ → ℕ
next_seq seq = (seq + 1) % 2 ^ 64

abbrev stamped : ℕ → Body → Body
stamped seq body = record body { seq = seq }

-- What is stored for an event, and broadcast once it is stored. `up` tells whether the database
-- takes the row.
abbrev pub store :
    ℕ → Bool → Kind → Body → Bytes → DbPersister → Result PersistError Unit × DbPersister
store now up kind body bytes p =
    let r : EventRecord = record {
      seq = body.seq;
      created_at = now;
      did = body.did;
      type_ = event_type kind;
      data_ = bytes;
    } in
    elim (if up then insert_row r p.event_records else none) [
      | none ↦ (err failed_to_persist, p)
      | some rows ↦ (
        ok tt,
        record p { event_records = rows; broadcast = p.broadcast ++ repo_event kind body ∷ [] },
      )
    ]

-- Persist: the sequence number is used up on every path.
unfoldable pub persist :
    Codec → ℕ → Bool → Event → DbPersister → Result PersistError Unit × DbPersister
unfolding insert_row serialize_event
persist codec now up other_event p = (err unknown_event_type, record p { seq = next_seq p.seq })
persist codec now up (repo_event kind body) p =
    let q : DbPersister = record p { seq = next_seq p.seq } in
    let b = stamped (next_seq p.seq) body in
    elim (serialize_event codec (repo_event kind b)) [
      | err e ↦ (err failed_to_serialize, q)
      | ok bytes ↦ store now up kind b bytes q
    ]

-- NewDbPersister: the highest number in the table, or the time.
unfoldable pub last_seq : ℕ → List EventRecord → ℕ
last_seq seq [] = seq
last_seq seq (x ∷ xs) = last_seq x.seq xs

unfoldable pub new_db_persister : ℕ → List EventRecord → DbPersister
unfolding last_seq
new_db_persister now rows = record { event_records = rows; seq = last_seq now rows; broadcast = [] }

-- The rows that the cleanup keeps.
unfoldable pub cleanup : ℕ → List EventRecord → List EventRecord
cleanup cutoff [] = []
cleanup cutoff (x ∷ xs) =
    let rest = cleanup cutoff xs in if ltb x.created_at cutoff then rest else x ∷ rest
