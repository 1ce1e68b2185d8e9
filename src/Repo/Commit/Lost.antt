-- ===== src/Repo/Commit/Lost.antt =====
-- server/repo.go: two writers that both build on the root that they have read.
use vow.Prelude.{
  ℕ, ◌≡◌, ◌≢◌, refl, ◌∙◌, arith, String, str_eq_ne, inl, inr, false, List, [], ◌∷◌, Bytes, ok, All,
}
use vow.Repo.Cache.{Cid}
use vow.Repo.Libraries.{Operation, Libraries, IsMap}
use vow.Repo.Writes.{Op, Draft, ApplyWriteResult, new_draft, apply_all}
use vow.Repo.Writes.Replay.{Records, assign, replay, apply_all-new_draft}
use vow.Repo.Commit.{
  PendingCommitState, RepoCommit, Account, Env, Signing, apply_writes, pending, is_empty,
}
use vow.Repo.Commit.Signed.{IsWritten, apply_writes-IsFinalised}

abbrev pub Untouched : String → List Operation → Type 0
Untouched q ops = All (λ (op : Operation). q ≢ op.path) ops

replay-Untouched :
    (f : Records) (ops : List Operation) (q : String) → Untouched q ops → replay f ops q ≡ f q
replay-Untouched f [] q h = refl
replay-Untouched f (op ∷ ops) q h =
    replay-Untouched (assign f op.path op.value) ops q h.1 ∙ (rw (str_eq_ne q op.path h.0) refl)

-- A writer takes no notice of a commit that another one makes after its tree was read: when both go
-- through, and it has changed something, the account points to its own commit and revision, and in
-- its tree every record that its operations do not name is as in the tree that it had read.
pub second_writer_wins :
    (lib : Libraries) (laws : IsMap lib) (did : String) (stored : String → String → Bytes)
    (ops : List (Op lib.Json)) (tree : lib.Tree) (ticks : ℕ) (d : Draft lib) (env : Env)
    (key : Signing) (first : PendingCommitState) (prev_root : Cid) (prev_rev rev : String)
    (unsigned : Bytes) (diff : List (Cid × Bytes)) (a b c : Account)
    (rs qs : List (ApplyWriteResult × RepoCommit)) (q : String)
    → apply_all lib did stored ops (new_draft lib tree ticks) ≡ (ok tt, d)
    → is_empty (pending lib d did prev_root prev_rev unsigned rev diff).atp_ops ≡ false
    → apply_writes env key first a ≡ (ok rs, b)
    → apply_writes env key (pending lib d did prev_root prev_rev unsigned rev diff) b ≡ (ok qs, c)
    → Untouched q d.atp_ops
    → (sig : Bytes) × IsWritten env unsigned sig c.root
      × (c.rev ≡ rev)
      × (lib.get d.tree q ≡ lib.get tree q)
unfolding pending
second_writer_wins lib laws did stored ops tree ticks d env key first prev_root prev_rev rev
      unsigned diff a b c rs qs q built some_ ran_first ran_second h =
    let tracks = apply_all-new_draft lib laws did stored ops tree ticks d built in
    let kept = tracks.tree q ∙ replay-Untouched (lib.get tree) d.atp_ops q h in
    elim (apply_writes-IsFinalised env key (pending lib d did prev_root prev_rev unsigned rev diff)
      b c qs ran_second) [
        | inl (nothing, same) ↦ absurd (ground arith)
        | inr (v, f) ↦ (v.sig, f.written, f.rev, kept)
      ]
