-- ===== src/Repo/Commit/Signed.antt =====
-- server/repo.go: what a commit that goes through has been checked for, and what it leaves behind.
use vow.Prelude.{
  ◌∷◌, Bool, ◌≡◌, refl, ap, sym, ◌∙◌, arith, true, false, not, Bool-cases, Option-cases, inl, inr,
  ◌⊎◌, Option, none, some, List, [], map, Bytes, Result, ok, err,
}
use vow.Prelude.Action.{◌>>=◌, ran, had, went_on, lift}
use vow.Signer.Conn.{SignerError}
use vow.Repo.Cache.{Cid}
use vow.Repo.Writes.{ApplyWriteResult}
use vow.Repo.Commit.{
  PendingCommitState, RepoCommit, Account, CommitError, Env, Signing, replay_log, op_blocks,
  persist_entries, update_repo, finished, stop_on, finalise_commit, finalise_write_from_state,
  sign_and_finalise, apply_writes, asked, is_empty, commit_failed, missing_block, no_public_key,
  bad_public_key, bad_signature, Commit,
}

pub not_stopped :
    {B : Type 0} (o : Option CommitError) (f : Unit → Commit B) (b : B) (s t : Account)
    → (stop_on o >>= f) s ≡ (ok b, t)
    → (o ≡ none) × (f tt s ≡ (ok b, t))
not_stopped none f b s t e = (refl, e)
not_stopped (some x) f b s t e = absurd (ground arith)

abbrev pub Outcome : Type 0
Outcome = Result CommitError (List (ApplyWriteResult × RepoCommit)) × Account

answer_of : Outcome → List (ApplyWriteResult × RepoCommit)
answer_of (ok rs, a) = rs
answer_of (err e, a) = []

-- The block store took every block of a log.
abbrev AreTaken : Env → List (Cid × Bytes) → Type 0
AreTaken env [] = Unit
AreTaken env ((c, block) ∷ log) = (env.takes c ≡ true) × AreTaken env log

replay_log-AreTaken :
    (env : Env) (log : List (Cid × Bytes)) → replay_log env log ≡ none → AreTaken env log
unfolding replay_log
replay_log-AreTaken env [] e = tt
replay_log-AreTaken env ((c, block) ∷ log) e = elim (Bool-cases (env.takes c)) [
  | inl taken ↦ (taken, replay_log-AreTaken env log (rw taken at e))
  | inr lost ↦ absurd (ground arith)
]

-- The block of the signed commit has the CID `root` and was written; where the store can be asked
-- what it has, it has this block and that of the tree's root.
pub record IsWritten (env : Env) (unsigned_cbor sig : Bytes) (root : Cid) : Type 0 where
  pub block : Bytes
  pub tree : Cid
  pub commit : env.signed_commit unsigned_cbor sig ≡ some (block, tree)
  pub summed : env.sum block ≡ some root
  pub taken : env.takes root ≡ true
  pub read_back :
      (env.verifier ≡ none)
      ⊎ ((has : Cid → Bool) × (env.verifier ≡ some has) × (has root ≡ true) × (has tree ≡ true))

finalise_commit-IsWritten :
    (env : Env) (unsigned_cbor sig : Bytes) (root : Cid)
    → finalise_commit env unsigned_cbor sig ≡ some root
    → IsWritten env unsigned_cbor sig root
unfolding finalise_commit
finalise_commit-IsWritten env unsigned_cbor sig root e =
    elim (Option-cases (env.signed_commit unsigned_cbor sig)) [
      | inl unread ↦ absurd (ground arith)
      | inr ((block, tree), commit) ↦ elim (Option-cases (env.sum block)) [
        | inl unnamed ↦ absurd (ground arith)
        | inr (c, summed) ↦
            let root_is : c ≡ root = ground arith in
            record {
              block = block;
              tree = tree;
              commit = commit;
              summed = summed ∙ ap some root_is;
              taken = ground arith;
              read_back = elim (Option-cases env.verifier) [
                | inl absent ↦ inl absent
                | inr (has, present_) ↦ inr (has, present_, ground arith, ground arith)
              ];
            }
      ]
    ]

-- The commit that was written, and where the account points now.
pub record IsFinalised (env : Env) (st : PendingCommitState) (sig : Bytes) (a b : Account)
    (rs : List (ApplyWriteResult × RepoCommit)) : Type 0 where
  pub replayed : AreTaken env st.write_log
  pub written : IsWritten env st.unsigned_cbor sig b.root
  pub rev : b.rev ≡ st.rev
  pub results : rs ≡ map (finished b.root st.rev) st.results

pub finalise-IsFinalised :
    (env : Env) (st : PendingCommitState) (sig : Bytes) (a b : Account)
    (rs : List (ApplyWriteResult × RepoCommit))
    → finalise_write_from_state env st sig a ≡ (ok rs, b)
    → IsFinalised env st sig a b rs
unfolding finalise_write_from_state update_repo answer_of
finalise-IsFinalised env st sig a b rs e =
    let (logged, e1) = not_stopped (replay_log env st.write_log) _ rs a b e in
    let (root, w, e2) = had (finalise_commit env st.unsigned_cbor sig) commit_failed _ rs a b e1 in
    let (blocks, bs, e3) = had (op_blocks env st.atp_ops) missing_block _ rs a b e2 in
    let (blobs, ps, e4) = ran (persist_entries env st.entries) _ rs a b e3 in
    let root_is : root ≡ b.root = ap (λ (z : Outcome). z.1.root) e4 in
    record {
      replayed = replay_log-AreTaken env st.write_log logged;
      written = finalise_commit-IsWritten env st.unsigned_cbor sig b.root (w ∙ ap some root_is);
      rev = sym (ap (λ (z : Outcome). z.1.rev) e4);
      results =
          sym (ap answer_of e4) ∙ ap (λ (x : Cid). map (finished x st.rev) st.results) root_is;
    }

-- A signature over the unsigned commit that the account's registered key verifies.
pub record IsVerified (key : Signing) (st : PendingCommitState) : Type 0 where
  pub sig : Bytes
  pub signed : key.sign st.unsigned_cbor ≡ ok sig
  pub registered : is_empty key.public_key ≡ false
  pub k : key.Key
  pub parsed : key.parse_key key.public_key ≡ some k
  pub verified : key.verify k st.unsigned_cbor sig ≡ true

asked-ok : (r : Result SignerError Bytes) (sig : Bytes) → asked r ≡ ok sig → r ≡ ok sig
asked-ok (ok x) sig e = ap ok (ground arith)
asked-ok (err x) sig e = absurd (ground arith)

-- Without a signature that the account's key verifies, nothing changes, whatever the answer is.
pub apply_writes-unsigned :
    (env : Env) (key : Signing) (st : PendingCommitState) (a : Account)
    → ¬ IsVerified key st
    → (apply_writes env key st a).1 ≡ a
unfolding apply_writes sign_and_finalise
apply_writes-unsigned env key st a h = elim (Bool-cases (is_empty st.atp_ops)) [
  | inl nothing ↦ rw (apply_writes, nothing) refl
  | inr some_ ↦ by_answer some_ (key.sign st.unsigned_cbor) refl
]
  where
    by_answer :
        is_empty st.atp_ops ≡ false
        → (s : Result SignerError Bytes) → key.sign st.unsigned_cbor ≡ s
        → (apply_writes env key st a).1 ≡ a
    by_answer some_ (err x) e = rw (apply_writes, some_, sign_and_finalise, e) refl
    by_answer some_ (ok sig) e = elim (Bool-cases (is_empty key.public_key)) [
      | inl none_ ↦ rw (apply_writes, some_, sign_and_finalise, e, none_) refl
      | inr there ↦ elim (Option-cases (key.parse_key key.public_key)) [
        | inl bad ↦ rw (apply_writes, some_, sign_and_finalise, e, there, bad) refl
        | inr (k, good) ↦ elim (Bool-cases (key.verify k st.unsigned_cbor sig)) [
          | inl valid ↦ absurd (
              h (record {
                sig = sig;
                signed = e;
                registered = there;
                k = k;
                parsed = good;
                verified = valid;
              }))
          | inr invalid ↦ rw (apply_writes, some_, sign_and_finalise, e, there, good, invalid) refl
        ]
      ]
    ]

-- Writes that go through either changed nothing in the tree, and the account stays as it is, or have
-- a commit signed by the account's registered key. Then every block of the write log was taken by the
-- block store, and so was the block that the unsigned commit and this signature make; the account's
-- root is the CID of that block, and where the store can be asked, it has it and the tree's root.
pub apply_writes-IsFinalised :
    (env : Env) (key : Signing) (st : PendingCommitState) (a b : Account)
    (rs : List (ApplyWriteResult × RepoCommit))
    → apply_writes env key st a ≡ (ok rs, b)
    → ((is_empty st.atp_ops ≡ true) × (b ≡ a))
      ⊎ ((v : IsVerified key st) × IsFinalised env st v.sig a b rs)
unfolding apply_writes sign_and_finalise
apply_writes-IsFinalised env key st a b rs e = elim (Bool-cases (is_empty st.atp_ops)) [
  | inl nothing ↦
      let e0 = rw (apply_writes, nothing) at e in inl (nothing, sym (ap (λ (z : Outcome). z.1) e0))
  | inr some_ ↦
      let e0 = rw (apply_writes, some_) at e in
      let (sig, asked_, e1) = ran (lift (asked (key.sign st.unsigned_cbor))) _ rs a b e0 in
      let (there, e2) = went_on (is_empty key.public_key) no_public_key _ rs a b e1 in
      let (k, good, e3) = had (key.parse_key key.public_key) bad_public_key _ rs a b e2 in
      let (valid, e4) =
        went_on (not (key.verify k st.unsigned_cbor sig)) bad_signature _ rs a b e3 in
      inr (
        record {
          sig = sig;
          signed = asked-ok (key.sign st.unsigned_cbor) sig asked_;
          registered = there;
          k = k;
          parsed = good;
          verified = ground arith;
        },
        finalise-IsFinalised env st sig a b rs e4,
      )
]
