-- ===== src/Repo/Cache/Transparent.antt =====
-- server/repo.go: to its callers withRepo is the opening of the repository under the root.
use vow.Prelude.{
  ◌≡◌, ◌≢◌, refl, ap, subst, sym, ◌∙◌, arith, String, str_eq, eq_iff, Bool-cases, Option-cases, inl,
  inr, Option, none, some, List, [], ◌∷◌, All, Result, ok, err,
}
use vow.Repo.Cache.{
  Cid, undef, CachedRepo, RepoCache, RepoError, cannot_open, failed, or_empty, entry, keep, settle,
  load, settle, with_repo,
}

-- No cache: open the repository, and call the function.
module _ {R E A : Type 0} where
  abbrev outcome : Result E (Cid × A) × R → Result (RepoError E) A
  outcome (ok (root, a), r) = ok a
  outcome (err e, r) = err (failed e)

  unfoldable pub direct :
      (Cid → String → Option R)
      → String
      → Cid
      → (R → Result E (Cid × A) × R)
      → Result (RepoError E) A
  direct open_repo did root fn = elim (open_repo root did) [
    | none ↦ err cannot_open
    | some r ↦ outcome (fn r)
  ]

-- An entry with a root holds the repository that this root opens.
abbrev pub IsFaithful : {R : Type 0} → (Cid → String → Option R) → RepoCache R → Type 0
IsFaithful {R} open_repo cache =
    (did : String) (cr : CachedRepo R) (r : R)
    → cache did ≡ some cr
    → cr.repo ≡ some r
    → cr.root ≢ undef
    → open_repo cr.root did ≡ some r

-- A call: a function that is run on the repository under a root and that says under which root
-- what it leaves behind is stored, or that this is undefined.
pub record RepoCall (R E A : Type 0) : Type 0 where
  pub did : String
  pub root : Cid
  pub fn : R → Result E (Cid × A) × R

abbrev pub IsHonest : {R E A : Type 0} → (Cid → String → Option R) → RepoCall R E A → Type 0
IsHonest {R} {E} {A} open_repo c =
    (c.root ≢ undef)
    × ((r r' : R) (root : Cid) (a : A)
        → open_repo c.root c.did ≡ some r
        → c.fn r ≡ (ok (root, a), r')
        → root ≢ undef
        → open_repo root c.did ≡ some r')

module _ {R : Type 0} (open_repo : Cid → String → Option R) where
  -- One entry is as the roots say.
  abbrev Opens : String → CachedRepo R → Type 0
  Opens did cr = (r : R) → cr.repo ≡ some r → cr.root ≢ undef → open_repo cr.root did ≡ some r

  load-open_repo :
      (did : String) (root : Cid) (cr : CachedRepo R)
      → root ≢ undef
      → Opens did cr
      → load open_repo did root cr ≡ open_repo root did
  unfolding load
  load-open_repo did root cr ne h = elim (Option-cases cr.repo) [
    | inl empty ↦ rw (load, empty) refl
    | inr (r, full) ↦ elim (Bool-cases (str_eq cr.root root)) [
      | inr other ↦ rw (load, full, other) refl
      | inl same ↦
          let root_is : cr.root ≡ root = (eq_iff cr.root root).0 same in
          let found = h r full (λ u. ne (sym root_is ∙ u)) in
          rw (load, full, same) (sym found ∙ ap (λ (x : Cid). open_repo x did) root_is)
    ]
  ]

  or_empty-Opens :
      (did : String) (stored : Option (CachedRepo R))
      → ((cr : CachedRepo R) → stored ≡ some cr → Opens did cr)
      → Opens did (or_empty stored)
  or_empty-Opens did none h r e ne = absurd (ne refl)
  or_empty-Opens did (some cr) h r e ne = h cr refl r e ne

  keep-IsFaithful :
      (cache : RepoCache R) (did : String) (cr : CachedRepo R)
      → IsFaithful open_repo cache
      → Opens did cr
      → IsFaithful open_repo (keep cache did cr)
  keep-IsFaithful cache did cr h new other old r e f ne = elim (Bool-cases (str_eq other did)) [
    | inr miss ↦ h other old r (ground arith) f ne
    | inl hit ↦
        let did_is : did ≡ other = sym ((eq_iff other did).0 hit) in
        let cr_is : cr ≡ old = ground arith in
        subst (λ (d : String). open_repo old.root d ≡ some r) did_is
          (subst (Opens did) cr_is new r f ne)
  ]

  settle-IsFaithful :
      {E A : Type 0} (cache : RepoCache R) (did : String) (x : Result E (Cid × A) × R)
      → ((r' : R) (root : Cid) (a : A)
          → x ≡ (ok (root, a), r')
          → root ≢ undef
          → open_repo root did ≡ some r')
      → IsFaithful open_repo cache
      → ((settle cache did x).0 ≡ outcome x) × IsFaithful open_repo (settle cache did x).1
  settle-IsFaithful cache did (ok (root, a), r) left h = (
    refl,
    keep-IsFaithful cache did (record { repo = some r; root = root }) h
        (λ r' e ne. left r root a refl ne ∙ e),
  )
  settle-IsFaithful cache did (err e, r) left h = (
    refl,
    keep-IsFaithful cache did (record { repo = none; root = undef }) h
        (λ r' f ne. absurd (ne refl)),
  )

  -- A call of withRepo has the result of the direct call, and the cache stays faithful.
  with_repo-direct :
      {E A : Type 0} (c : RepoCall R E A) (cache : RepoCache R)
      → IsHonest open_repo c
      → IsFaithful open_repo cache
      → ((with_repo open_repo c.did c.root c.fn cache).0 ≡ direct open_repo c.did c.root c.fn)
        × IsFaithful open_repo (with_repo open_repo c.did c.root c.fn cache).1
  unfolding with_repo direct
  with_repo-direct c cache honest h =
      let opens = or_empty-Opens c.did (cache c.did) (λ cr e. λ r. h c.did cr r e) in
      let loads = load-open_repo c.did c.root (entry cache c.did) honest.0 opens in
      elim (Option-cases (open_repo c.root c.did)) [
        | inl missing ↦
            rw (with_repo, loads, direct, missing)
              (refl, keep-IsFaithful cache c.did (entry cache c.did) h opens)
        | inr (r, found) ↦
            rw (with_repo, loads, direct, found)
              (settle-IsFaithful cache c.did (c.fn r) (λ r' root a e. honest.1 r r' root a found e)
                h)
      ]

-- Calls one after the other, through the cache and without one.
unfoldable pub serve :
    {R E A : Type 0}
    → (Cid → String → Option R)
    → List (RepoCall R E A)
    → RepoCache R
    → List (Result (RepoError E) A)
unfolding with_repo
serve open_repo [] cache = []
serve open_repo (c ∷ cs) cache =
    let (r, after) = with_repo open_repo c.did c.root c.fn cache in r ∷ serve open_repo cs after

unfoldable pub serve_direct :
    {R E A : Type 0}
    → (Cid → String → Option R)
    → List (RepoCall R E A)
    → List (Result (RepoError E) A)
unfolding direct
serve_direct open_repo [] = []
serve_direct open_repo (c ∷ cs) = direct open_repo c.did c.root c.fn ∷ serve_direct open_repo cs

-- The cache cannot be seen: from a cache whose entries are what their roots open, any list of calls
-- under defined roots, for any accounts, has the results that it would have if each call opened the
-- repository anew, as long as each function that returns a defined root leaves behind what this
-- root opens.
pub serve-refines-serve_direct :
    {R E A : Type 0} (open_repo : Cid → String → Option R) (cs : List (RepoCall R E A))
    (cache : RepoCache R)
    → All (IsHonest open_repo) cs
    → IsFaithful open_repo cache
    → serve open_repo cs cache ≡ serve_direct open_repo cs
unfolding serve serve_direct
serve-refines-serve_direct open_repo [] cache honest h = refl
serve-refines-serve_direct open_repo (c ∷ cs) cache honest h =
    let (same, after) = with_repo-direct open_repo c cache honest.0 h in
    let next = (with_repo open_repo c.did c.root c.fn cache).1 in
    rw same (
      ap (λ rest. direct open_repo c.did c.root c.fn ∷ rest)
        (serve-refines-serve_direct open_repo cs next honest.1 after))
