-- ===== src/Listing.antt =====
-- server/handle_repo_list_repos.go: the pages of all repositories. The rows of the table stand in
-- the order of their primary key, `gt` is SQL's order of texts, and `cast` what cid.Cast makes of a
-- root. `atoi` is strconv.Atoi, with 0 for a number below it.
pub mod Pages
mod Examples
use vow.Prelude.{
  ℕ, suc, ◌+◌, ◌≤◌, ◌<◌, ◌≡◌, arith, String, str_eq, Bool, true, false, not, ◌&&◌, Option, none,
  some, List, [], ◌∷◌, if◌then◌else◌, ltb, leb, length, take, Bytes, Result, ok, err,
}
use vow.Prelude.Results.{◌>>=◌, require}

pub record Repo : Type 0 where
  pub did : String
  pub root : Bytes
  pub rev : String
  pub deactivated : Bool

pub record RepoItem : Type 0 where
  pub did : String
  pub head : String
  pub rev : String
  pub active : Bool
  pub status : Option String

pub record Response : Type 0 where
  pub cursor : Option String
  pub repos : List RepoItem

pub data ListError : Type 0 where
  server_error unfinished : ListError

-- Repo.Status and Repo.Active
unfoldable pub status : Repo → Option String
status r = if r.deactivated then some "deactivated" else none

unfoldable pub active : Repo → Bool
unfolding status
active r = elim (status r) [ none ↦ true | some s ↦ false ]

abbrev pub default_limit : ℕ
default_limit = 500

unfoldable pub limit_of : (String → Option ℕ) → String → ℕ
limit_of atoi s = if str_eq s "" then default_limit else elim (atoi s) [
  | none ↦ default_limit
  | some l ↦ if ltb 0 l && leb l 1000 then l else default_limit
]

-- Whatever the request says, a page has at least one row and at most a thousand.
pub limit_of-bounds :
    (atoi : String → Option ℕ) (s : String) → (0 < limit_of atoi s) × (limit_of atoi s ≤ 1000)
unfolding limit_of
limit_of-bounds atoi s = (ground arith, ground arith)

module _ (gt : String → String → Bool) where
  -- WHERE did > ?
  unfoldable pub after : String → List Repo → List Repo
  after cursor [] = []
  after cursor (r ∷ rs) = let rest = after cursor rs in if gt r.did cursor then r ∷ rest else rest

  abbrev pub selected : String → List Repo → List Repo
  selected cursor rows = if str_eq cursor "" then rows else after cursor rows

abbrev pub last_did : List Repo → Option String
last_did [] = none
last_did (r ∷ []) = some r.did
last_did (r ∷ s ∷ rs) = last_did (s ∷ rs)

abbrev pub is_empty : Bytes → Bool
is_empty [] = true
is_empty (b ∷ bs) = false

module _ (cast : Bytes → Option String) where
  abbrev pub item : Repo → String → RepoItem
  item r head = record {
    did = r.did;
    head = head;
    rev = r.rev;
    active = active r;
    status = status r;
  }

  -- The items of the rows; a row without a root is passed over.
  unfoldable pub items : List Repo → Result ListError (List RepoItem)
  unfolding active status
  items [] = ok []
  items (r ∷ rs) =
      let rest = items rs in
      if is_empty r.root
      then rest
      else (do head ← require (cast r.root) server_error; more ← rest; ok (item r head ∷ more))

  unfoldable pub list_repos :
      (String → String → Bool) → ℕ → String → List Repo → Result ListError Response
  unfolding after items
  list_repos gt limit cursor rows =
      let repos = take (limit + 1) (selected gt cursor rows) in
      if ltb limit (length repos)
      then (do
        page ← items (take limit repos)
        ok (record { cursor = last_did (take limit repos); repos = page }))
      else (do page ← items repos; ok (record { cursor = none; repos = page }))
