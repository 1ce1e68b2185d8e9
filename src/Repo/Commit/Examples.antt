-- ===== src/Repo/Commit/Examples.antt =====
-- Tests of the commits of server/repo.go, and the theorems applied there.
use vow.Prelude.{ℕ, ◌≡◌, refl, arith, true, false, none, some, List, [], ◌∷◌, ok, map, ◌⊎◌}
use vow.Repo.Examples.{lib, draft}
use vow.Repo.Writes.{ApplyWriteResult}
use vow.Repo.Blobs.{
  Value, object, field, text, end, link, get_blob_cids_from_cbor, deep_iter, field_of, increment,
  decrement, change_all, increment_blob_refs, decrement_blob_refs, Blob,
}
use vow.Repo.Commit.{
  PendingCommitState, RepoCommit, Account, Env, Signing, serialise, pending, finalise_commit,
  is_empty, replay_log, op_blocks, persist_entry, persist_entries, upsert, remove, update_repo,
  finalise_write_from_state, sign_and_finalise, apply_writes, finished,
}
use vow.Repo.Commit.Signed.{
  IsVerified, IsFinalised, apply_writes-unsigned, apply_writes-IsFinalised,
}

-- A record with a blob in it.
abbrev post : Value
post = object (
    field "$type" (text "app.post") (
      field "image" (object (field "$type" (text "blob") (field "ref" (link "bafyblob") end))) end))

abbrev image : Blob
image = record { did = "did:a"; cid = "bafyblob"; increments = 0; decrements = 0 }

abbrev env : Env
env = record {
  takes = λ c. true;
  get_block = λ c. some (3 ∷ []);
  signed_commit = λ cbor sig. some (6 ∷ [], "bafytree");
  sum = λ b. some "bafycommit";
  verifier = none;
  parse_cid = λ s. some s;
  decode_cbor = λ b. some post;
  add_event = λ e. true;
}

abbrev key : Signing
key = record {
  Key = ℕ;
  public_key = 4 ∷ [];
  parse_key = λ b. some 4;
  verify = λ k cbor sig. true;
  sign = λ cbor. ok (8 ∷ []);
}

abbrev forger : Signing
forger = record {
  Key = ℕ;
  public_key = 4 ∷ [];
  parse_key = λ b. some 4;
  verify = λ k cbor sig. false;
  sign = λ cbor. ok (8 ∷ []);
}

abbrev start : Account
start = record {
  did = "did:a";
  records = [];
  blobs = image ∷ [];
  root = "bafyroot";
  rev = "3k0";
  events = [];
}

abbrev state : PendingCommitState
state = pending lib draft "did:a" "bafyroot" "3k0" (5 ∷ []) "3k9" (("bafytree", 7 ∷ []) ∷ [])

apply_writes-unsigned_example : (apply_writes env forger state start).1 ≡ start
unfolding pending
apply_writes-unsigned_example =
    apply_writes-unsigned env forger state start (λ v. absurd (ground (arith, v.verified)))

abbrev after : Account
after = (apply_writes env key state start).1

abbrev answers : List (ApplyWriteResult × RepoCommit)
answers = map (finished "bafycommit" "3k9") draft.results

runs : apply_writes env key state start ≡ (ok answers, after)
unfolding serialise pending finalise_commit replay_log op_blocks persist_entry persist_entries
    upsert remove update_repo finalise_write_from_state sign_and_finalise apply_writes
    get_blob_cids_from_cbor deep_iter field_of increment decrement change_all increment_blob_refs
    decrement_blob_refs
runs = refl

test_root : after.root ≡ "bafycommit"
unfolding serialise pending finalise_commit replay_log op_blocks persist_entry persist_entries
    upsert remove update_repo finalise_write_from_state sign_and_finalise apply_writes
    get_blob_cids_from_cbor deep_iter field_of increment decrement change_all increment_blob_refs
    decrement_blob_refs
test_root = refl

apply_writes-IsFinalised_example :
    ((is_empty state.atp_ops ≡ true) × (after ≡ start))
    ⊎ ((v : IsVerified key state) × IsFinalised env state v.sig start after answers)
apply_writes-IsFinalised_example = apply_writes-IsFinalised env key state start after answers runs

abbrev twice : Account
twice = (apply_writes env key state after).1

runs_twice : apply_writes env key state after ≡ (ok answers, twice)
unfolding serialise pending finalise_commit replay_log op_blocks persist_entry persist_entries
    upsert remove update_repo finalise_write_from_state sign_and_finalise apply_writes
    get_blob_cids_from_cbor deep_iter field_of increment decrement change_all increment_blob_refs
    decrement_blob_refs
runs_twice = refl
