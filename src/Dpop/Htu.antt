-- ===== src/Dpop/Htu.antt =====
-- internal/helpers/helpers.go: OauthParseHtu and OauthNormalizeHtu, over what net/url returns.
use vow.Prelude.{
  String, str_append, str_eq, Bool, true, false, not, ◌&&◌, ◌||◌, Option, none, some, Result, ok,
}
use vow.Prelude.Results.{◌>>=◌, ◌>>◌, refuse_if, require}

pub record Userinfo : Type 0 where
  pub username : String
  pub password : Option String

-- The fields of url.URL that the code reads. `raw_path` is empty where the path has its default
-- encoding.
pub record Url : Type 0 where
  pub scheme : String
  pub user : Option Userinfo
  pub host : String
  pub path : String
  pub raw_path : String

pub data HtuError : Type 0 where
  not_a_url has_credentials bad_scheme : HtuError

unfoldable pub oauth_normalize_htu : Url → String
oauth_normalize_htu u = str_append u.scheme (str_append "://" (str_append u.host u.raw_path))

abbrev is_some : Option String → Bool
is_some none = false
is_some (some s) = true

has_credentials? : Option Userinfo → Bool
has_credentials? none = false
has_credentials? (some info) = not (str_eq info.username "") || is_some info.password

-- The argument is what url.Parse returned.
unfoldable pub oauth_parse_htu : Option Url → Result HtuError String
unfolding has_credentials?
oauth_parse_htu parsed = do
  u ← require parsed HtuError.not_a_url
  refuse_if (has_credentials? u.user) HtuError.has_credentials
  refuse_if (not (str_eq u.scheme "http") && not (str_eq u.scheme "https")) HtuError.bad_scheme
  ok (oauth_normalize_htu u)
