-- ===== src/Repo/Writes.antt =====
-- server/repo.go: the first phase of applyWrites, in which the writes change the tree, and
-- putRecordBlock.
pub mod Replay
use vow.Prelude.{
  ℕ, suc, String, str_eq, str_append, Bool, true, false, not, Option, none, some, List, [], ◌∷◌,
  ◌++◌, if◌then◌else◌, Bytes, Result, ok, err,
}
use vow.Prelude.Action.{Action, pure, fail, need, gets, modify, stop_if, ◌>>=◌, ◌>>◌}
use vow.Repo.Cache.{Cid}
use vow.Repo.Libraries.{Operation, Libraries}

-- A type that the switch does not know is kept as its text.
pub data OpType : Type 0 where
  create update delete : OpType
  unknown : String → OpType

abbrev pub op_type_string : OpType → String
op_type_string create = "com.atproto.repo.applyWrites#create"
op_type_string update = "com.atproto.repo.applyWrites#update"
op_type_string delete = "com.atproto.repo.applyWrites#delete"
op_type_string (unknown s) = s

-- The fields that applyWrites reads; `J` is the JSON of a record.
pub record Op (J : Type 0) : Type 0 where
  pub type_ : OpType
  pub collection : String
  pub rkey : Option String
  pub record_ : Option J

-- A row of the table of records to write, or to delete where `cid` is "".
pub record Entry : Type 0 where
  pub did : String
  pub created_at : String
  pub nsid : String
  pub rkey : String
  pub cid : String
  pub value : Bytes

pub record ApplyWriteResult : Type 0 where
  pub type_ : String
  pub uri : Option String
  pub cid : Option String

pub data WriteError : Type 0 where
  invalid_rkey bad_rkey nil_pointer bad_record put_failed op_failed : WriteError

-- The inserts of the recording block store, each CID once.
abbrev pub log_put : Cid → Bytes → List (Cid × Bytes) → List (Cid × Bytes)
log_put c block [] = (c, block) ∷ []
log_put c block (b ∷ log) =
    let rest = log_put c block log in if str_eq b.0 c then (c, block) ∷ log else b ∷ rest

module _ (lib : Libraries) where
  -- What the loop over the writes builds, with the identifiers that the clock has handed out and
  -- the inserts of the recording block store.
  pub record Draft : Type 0 where
    pub tree : lib.Tree
    pub write_log : List (Cid × Bytes)
    pub ticks : ℕ
    pub atp_ops : List Operation
    pub entries : List Entry
    pub results : List ApplyWriteResult

  abbrev pub Write : Type 0 → Type 0
  Write A = Action Draft WriteError A

  abbrev pub next_tid : Write String
  next_tid d = (ok (lib.tid d.ticks), record d { ticks = suc d.ticks })

  abbrev pub path_of : String → String → String
  path_of collection rkey = str_append collection (str_append "/" rkey)

  -- A create of a record that is there is an update.
  abbrev create_type : Option Cid → OpType
  create_type none = create
  create_type (some c) = update

  -- The type and the key that a write ends up with.
  unfoldable pub resolve : OpType → String → Option String → Write (OpType × String)
  resolve create collection none = do rkey ← next_tid; pure (create, rkey)
  resolve create collection (some rkey) = do
    existing ← gets (λ (d : Draft). lib.get d.tree (path_of collection rkey))
    pure (create_type existing, rkey)
  resolve type_ collection none = fail invalid_rkey
  resolve type_ collection (some rkey) = pure (type_, rkey)

  -- atp.ApplyOp on the tree; the operation is recorded.
  unfoldable pub apply_op : String → Option Cid → Write Unit
  apply_op path value d = elim (lib.apply_op d.tree path value) [
    | none ↦ (err op_failed, d)
    | some (op, tree) ↦ (ok tt, record d { tree = tree; atp_ops = d.atp_ops ++ op ∷ [] })
  ]

  abbrev pub log_block : Cid → Bytes → Draft → Draft
  log_block c block d = record d { write_log = log_put c block d.write_log }

  unfoldable pub put_record_block : lib.Map → Write (Cid × Bytes)
  put_record_block mm = do
    block ← need (lib.marshal_cbor mm) bad_record
    let c = lib.sum block
    _ ← stop_if (not (lib.takes c)) put_failed
    _ ← modify (log_block c block)
    pure (c, block)

  abbrev uri_of : String → String → String → String
  uri_of did collection rkey =
      str_append "at://" (str_append did (str_append "/" (path_of collection rkey)))

  abbrev pub add : Entry → ApplyWriteResult → Draft → Draft
  add e r d = record d { entries = d.entries ++ e ∷ []; results = d.results ++ r ∷ [] }

  -- The common part of a create and an update.
  unfoldable pub write_record : String → OpType → String → String → lib.Map → Write Unit
  unfolding put_record_block apply_op
  write_record did type_ collection rkey mm = do
    (c, block) ← put_record_block mm
    _ ← apply_op (path_of collection rkey) (some c)
    created_at ← next_tid
    modify (
        add
          (record {
            did = did;
            created_at = created_at;
            nsid = collection;
            rkey = rkey;
            cid = lib.cid_string c;
            value = block;
          })
          (record {
            type_ = op_type_string type_;
            uri = some (uri_of did collection rkey);
            cid = some (lib.cid_string c);
          }))

  abbrev deleted : ApplyWriteResult
  deleted = record { type_ = op_type_string delete; uri = none; cid = none }

  -- `old_value` is the value that the table has for the record.
  unfoldable pub delete_record : String → Bytes → String → String → Write Unit
  unfolding apply_op
  delete_record did old_value collection rkey = do
    existing ← gets (λ (d : Draft). lib.get d.tree (path_of collection rkey))
    elim existing [
      | none ↦ modify (λ (d : Draft). record d { results = d.results ++ deleted ∷ [] })
      | some c ↦ (do
        _ ← modify (
            add
              (record {
                did = did;
                created_at = "";
                nsid = collection;
                rkey = rkey;
                cid = "";
                value = old_value;
              })
              deleted)
        apply_op (path_of collection rkey) none)
    ]

  -- The default of "$type" is set where the record has the empty text there.
  abbrev default_type : String → lib.Map → lib.Map
  default_type collection mm = elim (lib.type_text mm) [
    | none ↦ mm
    | some t ↦ if str_eq t "" then lib.set_type mm collection else mm
  ]

  unfoldable pub apply_typed :
      String → (String → String → Bytes) → Op lib.Json → OpType × String → Write Unit
  unfolding write_record delete_record
  apply_typed did stored op (create, rkey) = do
    rec ← need op.record_ nil_pointer
    mm ← need (lib.to_map rec) bad_record
    write_record did create op.collection rkey (default_type op.collection mm)
  apply_typed did stored op (update, rkey) = do
    rec ← need op.record_ nil_pointer
    mm ← need (lib.to_map rec) bad_record
    write_record did update op.collection rkey mm
  apply_typed did stored op (delete, rkey) =
      delete_record did (stored op.collection rkey) op.collection rkey
  apply_typed did stored op (unknown s, rkey) = pure tt

  unfoldable pub apply_write : String → (String → String → Bytes) → Op lib.Json → Write Unit
  unfolding resolve apply_typed
  apply_write did stored op = do
    target ← resolve op.type_ op.collection op.rkey
    _ ← stop_if (not (lib.is_record_key target.1)) bad_rkey
    apply_typed did stored op target

  unfoldable pub apply_all : String → (String → String → Bytes) → List (Op lib.Json) → Write Unit
  unfolding apply_write
  apply_all did stored [] = pure tt
  apply_all did stored (op ∷ ops) = do _ ← apply_write did stored op; apply_all did stored ops

  abbrev pub new_draft : lib.Tree → ℕ → Draft
  new_draft tree ticks = record {
    tree = tree;
    write_log = [];
    ticks = ticks;
    atp_ops = [];
    entries = [];
    results = [];
  }
