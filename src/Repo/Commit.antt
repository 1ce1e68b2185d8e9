-- ===== src/Repo/Commit.antt =====
-- server/repo.go: the other phases of applyWrites, in which the commit is signed, and
-- finaliseWriteFromState. The state is that of one account: its rows of the tables of records and
-- blobs, its root and revision, and the events that were sent.
pub mod Signed
pub mod Lost
mod Examples
use vow.Prelude.{
  ℕ, String, str_eq, str_append, Bool, true, false, not, ◌&&◌, Option, none, some, List, [], ◌∷◌,
  ◌++◌, map, if◌then◌else◌, Bytes, Result, ok, err,
}
use vow.Prelude.Action.{Action, pure, need, gets, modify, lift, stop_if, ◌>>=◌, ◌>>◌}
use vow.Signer.Conn.{SignerError}
use vow.Repo.Cache.{Cid}
use vow.Repo.Libraries.{Operation, Libraries, is_create, is_update, is_delete, no_action}
use vow.Repo.Writes.{Op, Entry, ApplyWriteResult, Draft, log_put}
use vow.Repo.Blobs.{Value, Blob, BlobError, increment_blob_refs, decrement_blob_refs}

-- serialisedOp, by its action; it has none where an operation is neither of the three.
pub data SerialisedOp : Type 0 where
  op_create op_update op_delete : String → Cid → SerialisedOp
  op_none : String → SerialisedOp

unfoldable pub serialise : (lib : Libraries) → Operation → SerialisedOp
serialise lib op = elim (lib.action op) [
  | is_create c ↦ op_create op.path c
  | is_update c ↦ op_update op.path c
  | is_delete c ↦ op_delete op.path c
  | no_action ↦ op_none op.path
]

pub record PendingCommitState : Type 0 where
  pub did : String
  pub prev_root : Cid
  pub prev_rev : String
  pub unsigned_cbor : Bytes
  pub rev : String
  pub entries : List Entry
  pub atp_ops : List SerialisedOp
  pub results : List ApplyWriteResult
  pub write_log : List (Cid × Bytes)

pub record RepoCommit : Type 0 where
  pub cid : Cid
  pub rev : String

-- An event of the firehose. `blocks` is the CAR: its root and its blocks in order.
pub record CommitEvent : Type 0 where
  pub repo : String
  pub blocks : Cid × List (Cid × Bytes)
  pub blobs : List Cid
  pub rev : String
  pub since : String
  pub commit : Cid
  pub ops : List SerialisedOp

pub record Account : Type 0 where
  pub did : String
  pub records : List Entry
  pub blobs : List Blob
  pub root : Cid
  pub rev : String
  pub events : List CommitEvent

pub data CommitError : Type 0 where
  replay_failed commit_failed missing_block blob_failed : CommitError
  write_failed no_public_key bad_public_key bad_signature : CommitError
  not_signed : SignerError → CommitError

-- The block store, the decoders and the event manager. `signed_commit` is the unsigned commit with a
-- signature, and the root of its tree; `verifier` asks the IPFS node for a block, where the type of
-- the block store has this method.
pub record Env : Type 1 where
  pub takes : Cid → Bool
  pub get_block : Cid → Option Bytes
  pub signed_commit : Bytes → Bytes → Option (Bytes × Cid)
  pub sum : Bytes → Option Cid
  pub verifier : Option (Cid → Bool)
  pub parse_cid : String → Option Cid
  pub decode_cbor : Bytes → Option Value
  pub add_event : CommitEvent → Bool

-- The block that the CAR has for an operation: the new record's, or the one that was deleted.
abbrev pub block_cid : SerialisedOp → Option Cid
block_cid (op_create path c) = some c
block_cid (op_update path c) = some c
block_cid (op_delete path c) = some c
block_cid (op_none path) = none

abbrev pub same_key : Entry → Entry → Bool
same_key e f = str_eq e.did f.did && (str_eq e.nsid f.nsid && str_eq e.rkey f.rkey)

-- Create with OnConflict on the key, and Delete by the key.
unfoldable pub upsert : Entry → List Entry → List Entry
upsert e [] = e ∷ []
upsert e (x ∷ xs) = if same_key e x then e ∷ xs else x ∷ upsert e xs

unfoldable pub remove : Entry → List Entry → List Entry
remove e [] = []
remove e (x ∷ xs) = let rest = remove e xs in if same_key e x then rest else x ∷ rest

abbrev pub Commit : Type 0 → Type 0
Commit A = Action Account CommitError A

abbrev with_blobs : Result BlobError (List Cid × List Blob) → Commit (List Cid)
with_blobs (err e) a = (err blob_failed, a)
with_blobs (ok (cids, blobs)) a = (ok cids, record a { blobs = blobs })

-- UpdateRepo sets the root, whatever it is by now.
unfoldable pub update_repo : Cid → String → Commit Unit
update_repo root rev a = (ok tt, record a { root = root; rev = rev })

abbrev pub finished : Cid → String → ApplyWriteResult → ApplyWriteResult × RepoCommit
finished root rev r =
    (record r { type_ = str_append r.type_ "Result" }, record { cid = root; rev = rev })

abbrev pub stop_on : Option CommitError → Commit Unit
stop_on none a = (ok tt, a)
stop_on (some e) a = (err e, a)

module _ (env : Env) where
  abbrev pub is_verified : Cid → Bool
  is_verified c = elim env.verifier [ none ↦ true | some has ↦ has c ]

  -- The CID of the commit with its signature, once its block was written.
  unfoldable pub finalise_commit : Bytes → Bytes → Option Cid
  finalise_commit unsigned_cbor sig = elim (env.signed_commit unsigned_cbor sig) [
    | none ↦ none
    | some (block, tree) ↦ elim (env.sum block) [
      | none ↦ none
      | some c ↦ if env.takes c && (is_verified c && is_verified tree) then some c else none
    ]
  ]

  -- The write log is written into a fresh block store.
  unfoldable pub replay_log : List (Cid × Bytes) → Option CommitError
  replay_log [] = none
  replay_log ((c, block) ∷ log) = if env.takes c then replay_log log else some replay_failed

  -- The blocks of the operations, read back from the store.
  unfoldable pub op_blocks : List SerialisedOp → Option (List (Cid × Bytes))
  op_blocks [] = some []
  op_blocks (op ∷ ops) = elim (block_cid op) [
    | none ↦ op_blocks ops
    | some c ↦ elim (env.get_block c) [
      | none ↦ none
      | some block ↦ elim (op_blocks ops) [ none ↦ none | some bs ↦ some ((c, block) ∷ bs) ]
    ]
  ]

  -- One row is written or deleted, and the references of its value counted.
  unfoldable pub persist_entry : Entry → Commit (List Cid)
  unfolding upsert remove
  persist_entry e a =
      if str_eq e.cid ""
      then with_blobs (decrement_blob_refs env.parse_cid env.decode_cbor a.did e.value a.blobs)
          (record a { records = remove e a.records })
      else with_blobs (increment_blob_refs env.parse_cid env.decode_cbor a.did e.value a.blobs)
          (record a { records = upsert e a.records })

  unfoldable pub persist_entries : List Entry → Commit (List Cid)
  unfolding persist_entry
  persist_entries [] = pure []
  persist_entries (e ∷ es) = do
    cids ← persist_entry e
    rest ← persist_entries es
    pure (cids ++ rest)

  -- AddEvent; its error is only logged.
  abbrev send_event : CommitEvent → Commit Unit
  send_event e a = (ok tt, if env.add_event e then record a { events = a.events ++ e ∷ [] } else a)

  unfoldable pub finalise_write_from_state :
      PendingCommitState → Bytes → Commit (List (ApplyWriteResult × RepoCommit))
  unfolding replay_log finalise_commit op_blocks persist_entries update_repo
  finalise_write_from_state st sig = do
    _ ← stop_on (replay_log st.write_log)
    newroot ← need (finalise_commit st.unsigned_cbor sig) commit_failed
    blocks ← need (op_blocks st.atp_ops) missing_block
    blobs ← persist_entries st.entries
    _ ← send_event (record {
      repo = st.did;
      blocks = (newroot, blocks ++ st.write_log);
      blobs = blobs;
      rev = st.rev;
      since = st.prev_rev;
      commit = newroot;
      ops = st.atp_ops;
    })
    _ ← update_repo newroot st.rev
    pure (map (finished newroot st.rev) st.results)

-- The blocks of the log, each CID once.
abbrev pub put_blocks : List (Cid × Bytes) → List (Cid × Bytes) → List (Cid × Bytes)
put_blocks [] log = log
put_blocks ((c, block) ∷ blocks) log = put_blocks blocks (log_put c block log)

-- What the first phase hands on: `diff` are the blocks of the tree, which buildUnsignedCommit has
-- written after those of the records.
unfoldable pub pending :
    (lib : Libraries)
    → Draft lib
    → String
    → Cid
    → String
    → Bytes
    → String
    → List (Cid × Bytes)
    → PendingCommitState
unfolding serialise
pending lib d did prev_root prev_rev unsigned_cbor rev diff = record {
  did = did;
  prev_root = prev_root;
  prev_rev = prev_rev;
  unsigned_cbor = unsigned_cbor;
  rev = rev;
  entries = d.entries;
  atp_ops = map (serialise lib) d.atp_ops;
  results = d.results;
  write_log = put_blocks diff d.write_log;
}

-- The account's key for signing, and its check; what the signer answers stands in `sign`.
pub record Signing : Type 1 where
  pub Key : Type 0
  pub public_key : Bytes
  pub parse_key : Bytes → Option Key
  pub verify : Key → Bytes → Bytes → Bool
  pub sign : Bytes → Result SignerError Bytes

abbrev is_empty : {A : Type 0} → List A → Bool
is_empty [] = true
is_empty (x ∷ xs) = false

abbrev asked : Result SignerError Bytes → Result CommitError Bytes
asked (ok sig) = ok sig
asked (err e) = err (not_signed e)

module _ (env : Env) (key : Signing) where
  -- applyWrites behind its first phase, from the state that this phase has built.
  unfoldable pub sign_and_finalise :
      PendingCommitState → Action Account CommitError (List (ApplyWriteResult × RepoCommit))
  unfolding finalise_write_from_state
  sign_and_finalise st = do
    sig ← lift (asked (key.sign st.unsigned_cbor))
    _ ← stop_if (is_empty key.public_key) no_public_key
    k ← need (key.parse_key key.public_key) bad_public_key
    _ ← stop_if (not (key.verify k st.unsigned_cbor sig)) bad_signature
    finalise_write_from_state env st sig

  -- Writes that change nothing are answered with the commit that stands.
  unfoldable pub apply_writes :
      PendingCommitState → Action Account CommitError (List (ApplyWriteResult × RepoCommit))
  unfolding sign_and_finalise
  apply_writes st a = elim (is_empty st.atp_ops) [
    | true ↦ (ok (map (finished st.prev_root st.prev_rev) st.results), a)
    | false ↦ sign_and_finalise st a
  ]
