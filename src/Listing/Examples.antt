-- ===== src/Listing/Examples.antt =====
-- Tests of server/handle_repo_list_repos.go at concrete tables, and the theorem applied there.
use Prim.Native.String.{compare}
use Prim.Native.Nat.{Ordering}
use vow.Prelude.{
  ℕ, ◌≡◌, refl, arith, String, str_ne_of_test, Bool, true, false, Option, none, some, List, [], ◌∷◌,
  Bytes, ok,
}
use vow.Listing.{Repo, limit_of, after, items, active, status, list_repos}
use vow.Listing.Pages.{follow, follow-items, Ordered}

abbrev gt : String → String → Bool
gt a b = elim (compare a b) [ Ordering.gt ↦ true | _ ↦ false ]

abbrev cast : Bytes → Option String
cast b = some "bafy"

abbrev row : String → Bytes → Repo
row did root = record { did = did; root = root; rev = "3k1"; deactivated = false }

-- The second account has no root yet.
abbrev rows : List Repo
rows = row "did:a" (1 ∷ []) ∷ row "did:b" [] ∷ row "did:c" (1 ∷ []) ∷ []

abbrev one : String → Option ℕ
one s = some 1

in_order : Ordered gt rows
in_order = (
  str_ne_of_test _ _ refl,
  refl,
  ((refl, refl), ((refl, refl), tt)),
  (str_ne_of_test _ _ refl, refl, ((refl, refl), tt), (str_ne_of_test _ _ refl, refl, tt, tt)),
)

follow-items_example : follow cast gt (limit_of one "1") 4 "" rows ≡ items cast rows
follow-items_example = follow-items cast gt one "1" 4 rows in_order (omega arith)

-- The pages have one row each, and the middle one no item.
test_pages :
    follow cast gt (limit_of one "1") 4 "" rows
    ≡ ok (
        record { did = "did:a"; head = "bafy"; rev = "3k1"; active = true; status = none }
        ∷ record { did = "did:c"; head = "bafy"; rev = "3k1"; active = true; status = none }
        ∷ [])
unfolding follow limit_of list_repos after items active status
test_pages = refl
