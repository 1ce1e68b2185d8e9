-- ===== src/Listing/Pages.antt =====
-- server/handle_repo_list_repos.go: a client that follows the cursors.
use vow.Prelude.{
  ℕ, zero, suc, ◌+◌, ◌≤◌, ◌<◌, ◌≡◌, ◌≢◌, refl, ap, sym, subst, ◌∙◌, arith, String, str_eq_ne, Bool,
  true, false, Bool-cases, Option-cases, inl, inr, Option, none, some, List, [], ◌∷◌, ◌++◌, ltb,
  length, length-take, take, All, Bytes, Result, ok, err,
}
use vow.Prelude.Results.{◌>>=◌}
use vow.Listing.{
  Repo, RepoItem, Response, ListError, unfinished, limit_of, limit_of-bounds, after, selected,
  last_did, is_empty, items, item, list_repos,
}

abbrev pub on_next :
    (String → Result ListError (List RepoItem)) → Response → Result ListError (List RepoItem)
on_next more page = elim page.cursor [
  | none ↦ ok page.repos
  | some cursor ↦ (do rest ← more cursor; ok (page.repos ++ rest))
]

module _ (cast : Bytes → Option String) (gt : String → String → Bool) (limit : ℕ) where
  -- One request after the other, each with the cursor of the answer before.
  unfoldable pub follow : ℕ → String → List Repo → Result ListError (List RepoItem)
  unfolding list_repos
  follow zero cursor rows = err unfinished
  follow (suc fuel) cursor rows = do
    page ← list_repos cast gt limit cursor rows
    on_next (λ next. follow fuel next rows) page

-- The rows are in SQL's order of their identifiers, which are not empty.
abbrev pub Later : (String → String → Bool) → Repo → Repo → Type 0
Later gt r s = (gt s.did r.did ≡ true) × (gt r.did s.did ≡ false)

abbrev pub Ordered : (String → String → Bool) → List Repo → Type 0
Ordered gt [] = Unit
Ordered gt (r ∷ rs) = (r.did ≢ "") × (gt r.did r.did ≡ false) × All (Later gt r) rs × Ordered gt rs

append_nil : {A : Type 0} (xs : List A) → xs ++ [] ≡ xs
append_nil [] = refl
append_nil (x ∷ xs) = ap (λ ys. x ∷ ys) (append_nil xs)

append_assoc : {A : Type 0} (xs ys zs : List A) → (xs ++ ys) ++ zs ≡ xs ++ (ys ++ zs)
append_assoc [] ys zs = refl
append_assoc (x ∷ xs) ys zs = ap (λ r. x ∷ r) (append_assoc xs ys zs)

-- A list that is longer than k, cut behind its element k.
cut :
    {A : Type 0} (k : ℕ) (rest : List A)
    → k < length rest
    → (xs : List A) × (x : A) × (ys : List A) × (rest ≡ xs ++ x ∷ ys)
      × (take (suc k) rest ≡ xs ++ x ∷ [])
      × (length ys < length rest)
cut k [] h = absurd (omega (arith, h))
cut zero (x ∷ rest) h = ([], x, rest, refl, refl, omega arith)
cut (suc k) (x ∷ rest) h =
    let (xs, y, ys, e, t, l) = cut k rest (omega (arith, h)) in
    (x ∷ xs, y, ys, ap (λ r. x ∷ r) e, ap (λ r. x ∷ r) t, omega (arith, l))

take-long : {A : Type 0} (n : ℕ) (xs : List A) → length xs ≤ n → take n xs ≡ xs
take-long zero [] h = refl
take-long zero (x ∷ xs) h = absurd (omega (arith, h))
take-long (suc n) [] h = refl
take-long (suc n) (x ∷ xs) h = ap (λ r. x ∷ r) (take-long n xs (omega (arith, h)))

take-take-suc : {A : Type 0} (n : ℕ) (xs : List A) → take n (take (suc n) xs) ≡ take n xs
take-take-suc zero xs = refl
take-take-suc (suc n) [] = refl
take-take-suc (suc n) (x ∷ xs) = ap (λ r. x ∷ r) (take-take-suc n xs)

take-take : {A : Type 0} (n : ℕ) (xs : List A) → take n (take (n + 1) xs) ≡ take n xs
take-take n xs =
    let next : n + 1 ≡ suc n = omega arith in ap (λ j. take n (take j xs)) next ∙ take-take-suc n xs

last_did-snoc : (xs : List Repo) (r : Repo) → last_did (xs ++ r ∷ []) ≡ some r.did
last_did-snoc [] r = refl
last_did-snoc (x ∷ []) r = refl
last_did-snoc (x ∷ y ∷ xs) r = last_did-snoc (y ∷ xs) r

module _ (gt : String → String → Bool) where
  All-middle :
      (P : Repo → Type 0) (xs : List Repo) (x : Repo) (ys : List Repo) → All P (xs ++ x ∷ ys) → P x
  All-middle P [] x ys h = h.0
  All-middle P (z ∷ xs) x ys h = All-middle P xs x ys h.1

  after-Later : (x : Repo) (ys : List Repo) → All (Later gt x) ys → after gt x.did ys ≡ ys
  unfolding after
  after-Later x [] h = refl
  after-Later x (y ∷ ys) h = rw h.0.0 (ap (λ r. y ∷ r) (after-Later x ys h.1))

  -- Behind the identifier of a row come the rows after it.
  after-Ordered :
      (xs : List Repo) (x : Repo) (ys : List Repo)
      → Ordered gt (xs ++ x ∷ ys)
      → (after gt x.did (xs ++ x ∷ ys) ≡ ys) × (x.did ≢ "")
  unfolding after
  after-Ordered [] x ys h = (rw h.1 (after-Later x ys h.2), h.0)
  after-Ordered (z ∷ xs) x ys h =
      let before = (All-middle (Later gt z) xs x ys h.2).1 in
      let (rest, named) = after-Ordered xs x ys h.3 in (rw before rest, named)

abbrev pub both :
    Result ListError (List RepoItem)
    → Result ListError (List RepoItem)
    → Result ListError (List RepoItem)
both a b = do x ← a; y ← b; ok (x ++ y)

both-nil : (b : Result ListError (List RepoItem)) → b ≡ both (ok []) b
both-nil (ok y) = refl
both-nil (err e) = refl

abbrev pub put : RepoItem → Result ListError (List RepoItem) → Result ListError (List RepoItem)
put i r = do more ← r; ok (i ∷ more)

both-cons :
    (i : RepoItem) (a b : Result ListError (List RepoItem)) → put i (both a b) ≡ both (put i a) b
both-cons i (ok x) (ok y) = refl
both-cons i (ok x) (err e) = refl
both-cons i (err e) b = refl

on_last :
    (more : String → Result ListError (List RepoItem)) (r : Result ListError (List RepoItem))
    → (r >>= λ page. ok (record { cursor = none; repos = page })) >>= on_next more ≡ r
on_last more (ok page) = refl
on_last more (err e) = refl

on_more :
    (more : String → Result ListError (List RepoItem)) (did : String)
    (r : Result ListError (List RepoItem))
    → (r >>= λ page. ok (record { cursor = some did; repos = page })) >>= on_next more
      ≡ both r (more did)
on_more more did (ok page) = refl
on_more more did (err e) = refl

module _ (cast : Bytes → Option String) where
  items-append : (xs ys : List Repo) → items cast (xs ++ ys) ≡ both (items cast xs) (items cast ys)
  unfolding items
  items-append [] ys = both-nil (items cast ys)
  items-append (x ∷ xs) ys = elim (Bool-cases (is_empty x.root)) [
    | inl empty ↦ rw empty (items-append xs ys)
    | inr rooted ↦ elim (Option-cases (cast x.root)) [
      | inl bad ↦ rw (rooted, bad) refl
      | inr (head, good) ↦
          rw (rooted, good, items-append xs ys)
            (both-cons (item cast x head) (items cast xs) (items cast ys))
    ]
  ]

module _ (cast : Bytes → Option String) (gt : String → String → Bool) where
  list_repos-last :
      (limit : ℕ) (cursor : String) (rows rest : List Repo)
      → selected gt cursor rows ≡ rest
      → ltb limit (length rest) ≡ false
      → list_repos cast gt limit cursor rows
        ≡ (items cast rest >>= λ page. ok (record { cursor = none; repos = page }))
  unfolding list_repos
  list_repos-last limit cursor rows rest s last =
      rw (s, take-long (limit + 1) rest (ground arith), last) refl

  list_repos-more :
      (k : ℕ) (cursor : String) (rows rest xs : List Repo) (x : Repo)
      → selected gt cursor rows ≡ rest
      → ltb (suc k) (length rest) ≡ true
      → take (suc k) rest ≡ xs ++ x ∷ []
      → list_repos cast gt (suc k) cursor rows
        ≡ (items cast (xs ++ x ∷ []) >>= λ page. ok (record { cursor = some x.did; repos = page }))
  unfolding list_repos
  list_repos-more k cursor rows rest xs x s more t =
      let long : ltb (suc k) (length (take (suc k + 1) rest)) ≡ true =
        ground (arith, length-take (suc k + 1) rest) in
      rw (s, long, take-take (suc k) rest, t, last_did-snoc xs x) refl

  follow-more :
      (k fuel : ℕ) (cursor : String) (rows xs : List Repo) (x : Repo) (ys : List Repo)
      → list_repos cast gt (suc k) cursor rows
        ≡ (items cast (xs ++ x ∷ []) >>= λ page. ok (record { cursor = some x.did; repos = page }))
      → follow cast gt (suc k) fuel x.did rows ≡ items cast ys
      → follow cast gt (suc k) (suc fuel) cursor rows ≡ items cast (xs ++ x ∷ ys)
  unfolding follow
  follow-more k fuel cursor rows xs x ys page ih = rw page (
      on_more (λ next. follow cast gt (suc k) fuel next rows) x.did (items cast (xs ++ x ∷ []))
      ∙ (ap (both (items cast (xs ++ x ∷ []))) ih
          ∙ (sym (items-append cast (xs ++ x ∷ []) ys)
              ∙ ap (items cast) (append_assoc xs (x ∷ []) ys))))

  follow-rest :
      (k fuel : ℕ) (rows done rest : List Repo) (cursor : String)
      → Ordered gt rows
      → rows ≡ done ++ rest
      → selected gt cursor rows ≡ rest
      → length rest < fuel
      → follow cast gt (suc k) fuel cursor rows ≡ items cast rest
  unfolding follow
  follow-rest k zero rows done rest cursor o w s h = absurd (omega (arith, h))
  follow-rest k (suc fuel) rows done rest cursor o w s h =
      elim (Bool-cases (ltb (suc k) (length rest))) [
        | inr last ↦
            rw (list_repos-last (suc k) cursor rows rest s last)
              (on_last (λ next. follow cast gt (suc k) fuel next rows) (items cast rest))
        | inl more ↦
            let (xs, x, ys, e, t, l) = cut k rest (ground arith) in
            let all : rows ≡ (done ++ xs) ++ x ∷ ys =
              w ∙ (ap (λ r. done ++ r) e ∙ sym (append_assoc done xs (x ∷ ys))) in
            let (next, named) = after-Ordered gt (done ++ xs) x ys (subst (Ordered gt) all o) in
            let behind : selected gt x.did rows ≡ ys =
              rw (str_eq_ne x.did "" named) (subst (λ r. after gt x.did r ≡ ys) (sym all) next) in
            let ih =
              follow-rest k fuel rows ((done ++ xs) ++ x ∷ []) ys x.did o
                (all ∙ sym (append_assoc (done ++ xs) (x ∷ []) ys)) behind (omega (arith, l, h)) in
            follow-more k fuel cursor rows xs x ys
              (list_repos-more k cursor rows rest xs x s more t) ih
            ∙ ap (items cast) (sym e)
      ]

  -- On rows in SQL's order, with identifiers that are not empty, a client that follows the cursors
  -- comes to an end, whatever limit it asks for: with more requests than there are rows it has the
  -- items of all rows, each once and in order, or the error of the first root that is no CID.
  pub follow-items :
      (atoi : String → Option ℕ) (limit : String) (fuel : ℕ) (rows : List Repo)
      → Ordered gt rows
      → length rows < fuel
      → follow cast gt (limit_of atoi limit) fuel "" rows ≡ items cast rows
  follow-items atoi limit fuel rows o h =
      positive (limit_of atoi limit) (limit_of-bounds atoi limit).0
    where
      positive : (n : ℕ) → 0 < n → follow cast gt n fuel "" rows ≡ items cast rows
      positive zero p = absurd (omega (arith, p))
      positive (suc k) p = follow-rest k fuel rows [] rows "" o refl refl h
