-- ===== src/Events/Log.antt =====
-- server/persist.go: the sequence numbers that Persist hands out, and the form of the rows.
use vow.Prelude.{
  ℕ, suc, ◌+◌, ◌^◌, ◌≤◌, ◌<◌, ◌≡◌, refl, arith, Bool, true, false, Option-cases, inl, inr, some,
  List, [], ◌∷◌, ◌++◌, ltb, ◌==◌, All, length, Bytes, ok, ap, ◌∙◌,
}
use vow.Events.{
  Body, Kind, commit, sync, identity, account, Event, repo_event, other_event, EventRecord,
  DbPersister, Codec, serialize_event, event_type, deserialize_event, insert_row, persist, store,
  next_seq,
}

-- The rows have increasing numbers, all of them above the first and up to the second.
abbrev pub Increasing : List EventRecord → Type 0
Increasing [] = Unit
Increasing (x ∷ xs) = All (λ (y : EventRecord). x.seq < y.seq) xs × Increasing xs

abbrev Below : ℕ → List EventRecord → Type 0
Below n rows = All (λ (y : EventRecord). y.seq < n) rows

abbrev pub IsLog : DbPersister → Type 0
IsLog p = Increasing p.event_records × Below (suc p.seq) p.event_records

above-All :
    (n : ℕ) (rows : List EventRecord) (x : EventRecord)
    → Below n rows
    → All (λ (y : EventRecord). x.seq < y.seq) rows
    → (r : EventRecord) → r.seq ≡ n
    → x.seq < n
    → All (λ (y : EventRecord). x.seq < y.seq) (rows ++ r ∷ [])
above-All n [] x b a r e lt = (omega arith, tt)
above-All n (y ∷ rows) x b a r e lt = (a.0, above-All n rows x b.1 a.1 r e lt)

append-Increasing :
    (n : ℕ) (rows : List EventRecord) (r : EventRecord)
    → r.seq ≡ n
    → Below n rows
    → Increasing rows
    → Increasing (rows ++ r ∷ [])
append-Increasing n [] r e b h = (tt, tt)
append-Increasing n (x ∷ rows) r e b h =
    (above-All n rows x b.1 h.0 r e b.0, append-Increasing n rows r e b.1 h.1)

append-Below :
    (n : ℕ) (rows : List EventRecord) (r : EventRecord)
    → r.seq ≡ n
    → Below n rows
    → Below (suc n) (rows ++ r ∷ [])
append-Below n [] r e b = (omega arith, tt)
append-Below n (x ∷ rows) r e b = (omega (arith, b.0), append-Below n rows r e b.1)

weaken : (n m : ℕ) (rows : List EventRecord) → n ≤ m → Below n rows → Below m rows
weaken n m [] le b = tt
weaken n m (x ∷ rows) le b = (omega (arith, b.0), weaken n m rows le b.1)

-- A row above all others goes to the end.
insert_row-last :
    (r : EventRecord) (rows : List EventRecord)
    → Below r.seq rows
    → insert_row r rows ≡ some (rows ++ r ∷ [])
unfolding insert_row
insert_row-last r [] b = refl
insert_row-last r (x ∷ xs) b =
    let lt = b.0 in
    let e : ltb r.seq x.seq ≡ false = ground arith in
    let f : (r.seq == x.seq) ≡ false = ground arith in rw (e, f, insert_row-last r xs b.1) refl

-- One event: what it was asked to be, when, and whether the database takes it.
pub record Input : Type 0 where
  pub event : Event
  pub now : ℕ
  pub up : Bool

unfoldable pub persist_all : Codec → List Input → DbPersister → DbPersister
unfolding persist
persist_all codec [] p = p
persist_all codec (i ∷ is) p = persist_all codec is (persist codec i.now i.up i.event p).1

next_seq-suc : (seq : ℕ) → seq + 1 < 2 ^ 63 → next_seq seq ≡ suc seq
next_seq-suc seq small = omega arith

store-IsLog :
    (now : ℕ) (up : Bool) (kind : Kind) (body : Body) (bytes : Bytes) (p : DbPersister)
    → body.seq ≡ p.seq
    → Increasing p.event_records
    → Below p.seq p.event_records
    → IsLog (store now up kind body bytes p).1 × ((store now up kind body bytes p).1.seq ≡ p.seq)
store-IsLog now false kind body bytes p e h b =
    ((h, weaken p.seq (suc p.seq) p.event_records (omega arith) b), refl)
store-IsLog now true kind body bytes p e h b =
    let r : EventRecord = record {
      seq = body.seq;
      created_at = now;
      did = body.did;
      type_ = event_type kind;
      data_ = bytes;
    } in
    let below = weaken p.seq r.seq p.event_records (omega arith) b in
    rw (store, insert_row-last r p.event_records below)
      (
        (append-Increasing p.seq p.event_records r e b h, append-Below p.seq p.event_records r e b),
        refl,
      )

persist-IsLog :
    (codec : Codec) (now : ℕ) (up : Bool) (e : Event) (p : DbPersister)
    → p.seq + 1 < 2 ^ 63
    → IsLog p
    → IsLog (persist codec now up e p).1 × ((persist codec now up e p).1.seq ≡ suc p.seq)
unfolding persist serialize_event
persist-IsLog codec now up other_event p small h =
    rw (next_seq-suc p.seq small)
      ((h.0, weaken (suc p.seq) (suc (suc p.seq)) p.event_records (omega arith) h.1), refl)
persist-IsLog codec now up (repo_event kind body) p small h =
    let nx = next_seq-suc p.seq small in
    let b : Body = record body { seq = next_seq p.seq } in
    elim (Option-cases (codec.marshal kind b)) [
      | inl bad ↦
          rw (persist, serialize_event, bad, nx)
            ((h.0, weaken (suc p.seq) (suc (suc p.seq)) p.event_records (omega arith) h.1), refl)
      | inr (bytes, good) ↦
          let q : DbPersister = record p { seq = next_seq p.seq } in
          let stored =
            store-IsLog now up kind b bytes q refl h.0
              (weaken (suc p.seq) (next_seq p.seq) p.event_records (omega (arith, nx)) h.1) in
          rw (persist, serialize_event, good) (stored.0, stored.1 ∙ nx)
    ]

-- From a table with increasing numbers, none above the counter, any list of events, valid or not,
-- with the database up or down, leaves such a table, and each event uses up one number, as long as
-- the counter stays below 2^63.
pub persist_all-IsLog :
    (codec : Codec) (is : List Input) (p : DbPersister)
    → p.seq + length is < 2 ^ 63
    → IsLog p
    → IsLog (persist_all codec is p) × ((persist_all codec is p).seq ≡ p.seq + length is)
unfolding persist_all
persist_all-IsLog codec [] p small h = (h, omega arith)
persist_all-IsLog codec (i ∷ is) p small h =
    let one = persist-IsLog codec i.now i.up i.event p (omega arith) h in
    let q = (persist codec i.now i.up i.event p).1 in
    let later = persist_all-IsLog codec is q (omega (arith, one.1)) one.0 in
    (later.0, omega (arith, later.1, one.1))

-- An event that was serialized is read back, under the type that Persist stores for it, as it was,
-- where the codec of its type reads what it wrote.
pub deserialize_event-roundtrip :
    (codec : Codec) (kind : Kind) (body : Body) (bytes : Bytes)
    → ((bs : Bytes) → codec.marshal kind body ≡ some bs → codec.unmarshal kind bs ≡ some body)
    → serialize_event codec (repo_event kind body) ≡ ok bytes
    → deserialize_event codec (event_type kind) bytes ≡ ok (repo_event kind body)
unfolding serialize_event deserialize_event
deserialize_event-roundtrip codec kind body bytes law e =
    elim (Option-cases (codec.marshal kind body)) [
      | inl bad ↦ absurd (ground arith)
      | inr (bs, good) ↦ let back = law bytes (good ∙ ap some (ground arith)) in known kind back
    ]
  where
    known :
        (k : Kind)
        → codec.unmarshal k bytes ≡ some body
        → deserialize_event codec (event_type k) bytes ≡ ok (repo_event k body)
    known commit back = rw (deserialize_event, back) refl
    known sync back = rw (deserialize_event, back) refl
    known identity back = rw (deserialize_event, back) refl
    known account back = rw (deserialize_event, back) refl
