-- ===== src/Repo/Cache.antt =====
-- server/repo.go: withRepo, the cache of opened repositories. A `cid.Cid` is the string that it
-- wraps, and `cid.Undef` the empty one. The function that a caller passes returns the new root, and
-- works on the repository in place: what it leaves there is the second half of its result. A panic of
-- the function is not modelled.
pub mod Transparent
use vow.Prelude.{
  String, str_eq, Bool, true, false, ◌&&◌, not, Option, none, some, List, [], ◌∷◌, if◌then◌else◌,
  Result, ok, err,
}

abbrev pub Cid : Type 0
Cid = String

abbrev pub undef : Cid
undef = ""

pub record CachedRepo (R : Type 0) : Type 0 where
  pub repo : Option R
  pub root : Cid

abbrev pub RepoCache : Type 0 → Type 0
RepoCache R = String → Option (CachedRepo R)

-- `cannot_open` is the error of openRepo, `failed` that of the caller's function.
pub data RepoError (E : Type 0) : Type 0 where
  cannot_open : RepoError E
  failed : E → RepoError E

module _ {R : Type 0} where
  abbrev pub or_empty : Option (CachedRepo R) → CachedRepo R
  or_empty none = record { repo = none; root = undef }
  or_empty (some cr) = cr

  -- `rm.cache[did]`, with an empty entry where there is none.
  abbrev pub entry : RepoCache R → String → CachedRepo R
  entry cache did = or_empty (cache did)

  abbrev pub keep : RepoCache R → String → CachedRepo R → RepoCache R
  keep cache did cr other = if str_eq other did then some cr else cache other

  -- The repository of the entry where its root is the one that is asked for, or else a fresh one.
  unfoldable pub load : (Cid → String → Option R) → String → Cid → CachedRepo R → Option R
  load open_repo did root cr = elim cr.repo [
    | none ↦ open_repo root did
    | some r ↦ if str_eq cr.root root then some r else open_repo root did
  ]

module _ {R E A : Type 0} where
  abbrev pub settle :
      RepoCache R → String → Result E (Cid × A) × R → Result (RepoError E) A × RepoCache R
  settle cache did (ok (root, a), r) =
      (ok a, keep cache did (record { repo = some r; root = root }))
  settle cache did (err e, r) =
      (err (failed e), keep cache did (record { repo = none; root = undef }))

  unfoldable pub with_repo :
      (Cid → String → Option R)
      → String
      → Cid
      → (R → Result E (Cid × A) × R)
      → RepoCache R
      → Result (RepoError E) A × RepoCache R
  unfolding load
  with_repo open_repo did root fn cache = elim (load open_repo did root (entry cache did)) [
    | none ↦ (err cannot_open, keep cache did (entry cache did))
    | some r ↦ settle cache did (fn r)
  ]
