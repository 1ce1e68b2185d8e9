-- ===== src/Repo/Examples.antt =====
-- Tests of server/repo.go at concrete repositories, and the theorems applied there.
use vow.Prelude.{
  ℕ, ◌≡◌, refl, arith, ap, sym, ◌∙◌, String, str_eq, str_ne_of_test, true, Option, none, some, List,
  [], ◌∷◌, if◌then◌else◌, Bytes, Result, ok, err,
}
use vow.Repo.Cache.{Cid, undef, failed, load, with_repo}
use vow.Repo.Cache.Transparent.{RepoCall, serve, serve_direct, IsHonest, serve-refines-serve_direct}
use vow.Repo.Libraries.{Libraries, IsMap, OpAction, is_create, is_delete, no_action}
use vow.Repo.Writes.{
  Op, create, delete, Draft, new_draft, resolve, apply_op, put_record_block, write_record,
  delete_record, apply_typed, apply_write, apply_all,
}
use vow.Repo.Writes.Replay.{Tracks, apply_all-new_draft}

-- A tree as the list of its assignments, the newest first.
abbrev pub Tree : Type 0
Tree = List (String × Option Cid)

abbrev pub find : Tree → String → Option Cid
find [] q = none
find ((p, v) ∷ t) q = if str_eq q p then v else find t q

abbrev pub action_of : Option Cid → Option Cid → OpAction
action_of none (some v) = is_create v
action_of (some p) none = is_delete p
action_of p v = no_action

abbrev pub lib : Libraries
lib = record {
  Tree = Tree;
  get = find;
  apply_op = λ t p v. some (record { path = p; prev = find t p; value = v }, (p, v) ∷ t);
  action = λ op. action_of op.prev op.value;
  Json = String;
  Map = String;
  to_map = λ s. some s;
  type_text = λ s. none;
  set_type = λ m s. m;
  marshal_cbor = λ s. some (1 ∷ 2 ∷ []);
  sum = λ b. "bafy1";
  cid_string = λ c. c;
  tid = λ n. "3k1";
  is_record_key = λ s. true;
  takes = λ c. true;
}

unsome : {A : Type 0} → A → Option A → A
unsome a none = a
unsome a (some b) = b

pub lib_IsMap : IsMap lib
unfolding unsome
lib_IsMap = record {
  path = λ t p v x e. ap (λ o. (unsome x o).0.path) (sym e);
  value = λ t p v x e. ap (λ o. (unsome x o).0.value) (sym e);
  prev = λ t p v x e. ap (λ o. (unsome x o).0.prev) (sym e);
  get = λ t p q v x e. ap (λ o. find (unsome x o).1 q) (sym e);
}

abbrev open_repo : Cid → String → Option ℕ
open_repo root did = if str_eq root "r1" then some 1 else if str_eq root "r2" then some 2 else none

-- A write, a commit that leaves its root open, and a failure.
abbrev writes_r2 : RepoCall ℕ ℕ ℕ
writes_r2 = record { did = "did:a"; root = "r1"; fn = λ r. (ok ("r2", r), 2) }

abbrev leaves_open : RepoCall ℕ ℕ ℕ
leaves_open = record { did = "did:a"; root = "r2"; fn = λ r. (ok (undef, r), 7) }

abbrev fails : RepoCall ℕ ℕ ℕ
fails = record { did = "did:a"; root = "r1"; fn = λ r. (err 5, 9) }

abbrev Left : Type 0
Left = Result ℕ (Cid × ℕ) × ℕ

abbrev root_left : Left → Cid
root_left (ok (root, a), r) = root
root_left (err e, r) = undef

writes_r2-IsHonest : IsHonest open_repo writes_r2
writes_r2-IsHonest = (
  str_ne_of_test _ _ refl,
  λ r s root a opened e ne.
      ap (λ (x : Cid). open_repo x "did:a") (ap (λ (z : Left). root_left z) (sym e))
      ∙ ap (λ (z : Left). some z.1) e,
)

leaves_open-IsHonest : IsHonest open_repo leaves_open
leaves_open-IsHonest = (
  str_ne_of_test _ _ refl,
  λ r s root a opened e ne. absurd (ne (ap (λ (z : Left). root_left z) (sym e))),
)

fails-IsHonest : IsHonest open_repo fails
fails-IsHonest = (str_ne_of_test _ _ refl, λ r s root a opened e ne. absurd (ground arith))

serve-refines-serve_direct_example :
    serve open_repo (writes_r2 ∷ leaves_open ∷ fails ∷ []) (λ did. none)
    ≡ serve_direct open_repo (writes_r2 ∷ leaves_open ∷ fails ∷ [])
serve-refines-serve_direct_example =
    serve-refines-serve_direct open_repo (writes_r2 ∷ leaves_open ∷ fails ∷ []) (λ did. none)
      (writes_r2-IsHonest, (leaves_open-IsHonest, (fails-IsHonest, tt)))
      (λ did cr r e. absurd (ground arith))

-- Read through the cache: the second call finds the repository that the first one left.
test_serve :
    serve open_repo (writes_r2 ∷ leaves_open ∷ fails ∷ []) (λ did. none)
    ≡ ok 1 ∷ ok 2 ∷ err (failed 5) ∷ []
unfolding serve with_repo load
test_serve = refl

abbrev pub made : Op String
made = record { type_ = create; collection = "app.post"; rkey = none; record_ = some "{}" }

abbrev pub unmade : Op String
unmade = record { type_ = delete; collection = "app.post"; rkey = some "3k0"; record_ = none }

abbrev pub old_tree : Tree
old_tree = ("app.post/3k0", some "bafy0") ∷ []

abbrev pub stored : String → String → Bytes
stored collection rkey = 9 ∷ []

abbrev pub draft : Draft lib
draft = record {
  tree = ("app.post/3k0", none) ∷ ("app.post/3k1", some "bafy1") ∷ old_tree;
  write_log = ("bafy1", 1 ∷ 2 ∷ []) ∷ [];
  ticks = 7;
  atp_ops =
      record { path = "app.post/3k1"; prev = none; value = some "bafy1" }
      ∷ record { path = "app.post/3k0"; prev = some "bafy0"; value = none }
      ∷ [];
  entries =
      record {
        did = "did:a";
        created_at = "3k1";
        nsid = "app.post";
        rkey = "3k1";
        cid = "bafy1";
        value = 1 ∷ 2 ∷ [];
      }
      ∷ record {
        did = "did:a";
        created_at = "";
        nsid = "app.post";
        rkey = "3k0";
        cid = "";
        value = 9 ∷ [];
      }
      ∷ [];
  results =
      record {
        type_ = "com.atproto.repo.applyWrites#create";
        uri = some "at://did:a/app.post/3k1";
        cid = some "bafy1";
      }
      ∷ record { type_ = "com.atproto.repo.applyWrites#delete"; uri = none; cid = none }
      ∷ [];
}

pub builds :
    apply_all lib "did:a" stored (made ∷ unmade ∷ []) (new_draft lib old_tree 5) ≡ (ok tt, draft)
unfolding resolve apply_op put_record_block write_record delete_record apply_typed apply_write
    apply_all
builds = refl

apply_all-new_draft_example : Tracks lib (find old_tree) draft
apply_all-new_draft_example =
    apply_all-new_draft lib lib_IsMap "did:a" stored (made ∷ unmade ∷ []) old_tree 5 draft builds
