-- ===== src/OauthClient/Manager.antt =====
-- oauth/client/manager.go: GetClient, with the cache of the metadata and the choice of a key.
use vow.Prelude.{
  ◌≡◌, ◌≢◌, ap, subst, sym, ◌∙◌, arith, String, str_eq, eq_iff, Bool, true, false, Bool-cases,
  Option-cases, inl, inr, ◌⊎◌, not, Option, none, some, List, [], ◌∷◌, if◌then◌else◌, Result, ok,
  err,
}
use vow.Prelude.Results.{bind_ok, required, passed, require, refuse_if, ok_injective}
use vow.Prelude.Results
use vow.Prelude.Action.{Action, pure, need, lift, modify, ran, had, ◌>>=◌}
use vow.Dpop.Jose.{MapClaims, text, lookup}
use vow.OauthClient.{
  Metadata, MetadataError, Libraries, no_keys, empty_jwks, no_usable_key, bad_key, not_fetched,
}
use vow.OauthClient.Validate.{validate_and_parse_metadata, is_empty}
use vow.OauthClient.Validate.Sound.{IsClient, validate_and_parse_metadata-IsClient}

-- `m[field] == value`
abbrev pub field_is : String → String → MapClaims → Bool
field_is field value m = elim (lookup field m) [ some (text s) ↦ str_eq s value | _ ↦ false ]

-- The first key with a text in a field; one that is no object has no fields.
unfoldable pub find_key : String → String → List (Option MapClaims) → Option MapClaims
unfolding lookup
find_key field value [] = none
find_key field value (none ∷ ks) = find_key field value ks
find_key field value (some m ∷ ks) =
    if field_is field value m then some m else find_key field value ks

abbrev pub or_else : {A : Type 0} → Option A → Option A → Option A
or_else (some a) o = some a
or_else none o = o

abbrev pub head_key : List (Option MapClaims) → Option MapClaims
head_key [] = none
head_key (k ∷ ks) = k

abbrev pub by_kid : String → List (Option MapClaims) → Option MapClaims
by_kid hint keys = if str_eq hint "" then none else find_key "kid" hint keys

-- The cache of metadata, aside from what it forgets.
abbrev pub MetadataCache : Type 0
MetadataCache = String → Option Metadata

abbrev pub remember : String → Metadata → MetadataCache → MetadataCache
remember id m cache other = if str_eq other id then some m else cache other

pub record Client (lib : Libraries) : Type 0 where
  pub metadata : Metadata
  pub jwks : Option lib.Key

module _ (lib : Libraries) where
  unfoldable pub select_key : List (Option MapClaims) → String → Result MetadataError lib.Key
  unfolding find_key
  select_key keys hint =
      if is_empty keys
      then err empty_jwks
      else Results.◌>>=◌
          (require
            (or_else (by_kid hint keys) (or_else (find_key "use" "sig" keys) (head_key keys)))
            no_usable_key)
          (λ chosen. require (lib.parse_key chosen) bad_key)

  -- `cached` is what the cache of keys has for the client.
  unfoldable pub get_client_jwks : Option lib.Key → String → Result MetadataError lib.Key
  unfolding select_key
  get_client_jwks (some key) uri = ok key
  get_client_jwks none uri =
      Results.◌>>=◌ (require (lib.get_jwks uri) not_fetched) (λ keys. select_key keys "")

  abbrev pub some_key : Result MetadataError lib.Key → Result MetadataError (Option lib.Key)
  some_key (ok k) = ok (some k)
  some_key (err e) = err e

  abbrev pub from_uri : Option lib.Key → Option String → Result MetadataError (Option lib.Key)
  from_uri cached none = err no_keys
  from_uri cached (some uri) = some_key (get_client_jwks cached uri)

  -- The key of a client that has one: of its own list, with the name of the algorithm as the
  -- identifier that is looked for, or of the list that it refers to.
  unfoldable pub client_key : Option lib.Key → Metadata → Result MetadataError (Option lib.Key)
  unfolding get_client_jwks
  client_key cached m =
      let referred = from_uri cached m.jwks_uri in
      if not (str_eq m.token_endpoint_auth_method "private_key_jwt") then ok none else elim m.jwks [
        | some keys ↦
            if is_empty keys
            then referred
            else some_key (select_key keys m.token_endpoint_auth_signing_alg)
        | none ↦ referred
      ]

  abbrev pub Manage : Type 0 → Type 0
  Manage A = Action MetadataCache MetadataError A

  abbrev pub fetch_metadata : String → Manage Metadata
  fetch_metadata client_id = do
    b ← need (lib.get_metadata client_id) not_fetched
    m ← lift (validate_and_parse_metadata lib client_id b)
    _ ← modify (remember client_id m)
    pure m

  unfoldable pub get_client_metadata : String → Manage Metadata
  unfolding validate_and_parse_metadata
  get_client_metadata client_id cache = elim (cache client_id) [
    | some m ↦ (ok m, cache)
    | none ↦ fetch_metadata client_id cache
  ]

  unfoldable pub get_client : (String → Option lib.Key) → String → Manage (Client lib)
  unfolding get_client_metadata client_key
  get_client jwks_cache client_id = do
    m ← get_client_metadata client_id
    key ← lift (client_key (jwks_cache client_id) m)
    pure (record { metadata = m; jwks = key })

  abbrev pub Found : Type 0
  Found = Result MetadataError Metadata × MetadataCache

  abbrev pub Got : Type 0
  Got = Result MetadataError (Client lib) × MetadataCache

  -- Every entry of the cache was accepted for its client.
  abbrev pub IsValidated : MetadataCache → Type 0
  IsValidated cache = (id : String) (m : Metadata) → cache id ≡ some m → IsClient lib id m

  remember-IsValidated :
      (cache : MetadataCache) (id : String) (m : Metadata)
      → IsValidated cache
      → IsClient lib id m
      → IsValidated (remember id m cache)
  remember-IsValidated cache id m h new other n e = elim (Bool-cases (str_eq other id)) [
    | inr miss ↦ h other n (ground arith)
    | inl hit ↦
        let m_is : m ≡ n = ground arith in
        subst (λ x. IsClient lib x n) (sym ((eq_iff other id).0 hit))
          (subst (IsClient lib id) m_is new)
  ]

  get_client_metadata-IsClient :
      (client_id : String) (cache after : MetadataCache) (m : Metadata)
      → IsValidated cache
      → get_client_metadata client_id cache ≡ (ok m, after)
      → IsClient lib client_id m × IsValidated after
  unfolding get_client_metadata
  get_client_metadata-IsClient client_id cache after m h e = elim (Option-cases (cache client_id)) [
    | inr (n, hit) ↦
        let e0 = rw (get_client_metadata, hit) at e in
        (
          h client_id m (hit ∙ ap some (ok_injective n m (ap (λ (z : Found). z.0) e0))),
          subst IsValidated (ap (λ (z : Found). z.1) e0) h,
        )
    | inl miss ↦
        let e0 = rw (get_client_metadata, miss) at e in
        let (b, fetched, e1) = had (lib.get_metadata client_id) not_fetched _ m cache after e0 in
        let (n, valid, e2) =
          ran (lift (validate_and_parse_metadata lib client_id b)) _ m cache after e1 in
        let new = validate_and_parse_metadata-IsClient lib client_id b n valid in
        (
          subst (IsClient lib client_id) (ok_injective n m (ap (λ (z : Found). z.0) e2)) new,
          subst IsValidated (ap (λ (z : Found). z.1) e2)
              (remember-IsValidated cache client_id n h new),
        )
  ]

  some_key-some :
      (r : Result MetadataError lib.Key) (o : Option lib.Key) → some_key r ≡ ok o → o ≢ none
  some_key-some (ok k) o e n = ground arith
  some_key-some (err x) o e n = ground arith

  from_uri-some :
      (cached : Option lib.Key) (uri : Option String) (o : Option lib.Key)
      → from_uri cached uri ≡ ok o
      → o ≢ none
  from_uri-some cached none o e = absurd (ground arith)
  from_uri-some cached (some uri) o e = some_key-some (get_client_jwks cached uri) o e

  either :
      (b : Bool) (x y : Result MetadataError (Option lib.Key)) (o : Option lib.Key)
      → (if b then x else y) ≡ ok o
      → (x ≡ ok o) ⊎ (y ≡ ok o)
  either true x y o e = inl e
  either false x y o e = inr e

  abbrev own : Metadata → List (Option MapClaims) → Result MetadataError (Option lib.Key)
  own m keys = some_key (select_key keys m.token_endpoint_auth_signing_alg)

  client_key-some :
      (cached : Option lib.Key) (m : Metadata) (o : Option lib.Key)
      → client_key cached m ≡ ok o
      → str_eq m.token_endpoint_auth_method "private_key_jwt" ≡ true
      → o ≢ none
  unfolding client_key
  client_key-some cached m o e h = elim (Option-cases m.jwks) [
    | inl missing ↦ from_uri-some cached m.jwks_uri o (rw (client_key, h, missing) at e)
    | inr (keys, listed) ↦
        let e0 = rw (client_key, h, listed) at e in
        elim (either (is_empty keys) (from_uri cached m.jwks_uri) (own m keys) o e0) [
          | inl referred ↦ from_uri-some cached m.jwks_uri o referred
          | inr mine ↦ some_key-some (select_key keys m.token_endpoint_auth_signing_alg) o mine
        ]
  ]

  -- A client that is handed out under an identifier has metadata that were accepted for it, and a
  -- key where it authenticates with one; and every entry of the cache stays one that was accepted.
  pub get_client-IsClient :
      (jwks_cache : String → Option lib.Key) (client_id : String) (cache after : MetadataCache)
      (c : Client lib)
      → IsValidated cache
      → get_client jwks_cache client_id cache ≡ (ok c, after)
      → IsClient lib client_id c.metadata
        × (c.metadata.token_endpoint_auth_method ≡ "private_key_jwt" → c.jwks ≢ none)
        × IsValidated after
  unfolding get_client
  get_client-IsClient jwks_cache client_id cache after c h e =
      let (m, found, e1) = ran (get_client_metadata client_id) _ c cache after e in
      let mid = (get_client_metadata client_id cache).1 in
      let (is, kept) = get_client_metadata-IsClient client_id cache mid m h (λ i. (found i, mid)) in
      let (key, chosen, e2) = ran (lift (client_key (jwks_cache client_id) m)) _ c mid after e1 in
      let same = ok_injective (record { metadata = m; jwks = key }) c (ap (λ (z : Got). z.0) e2) in
      (
        subst (λ (x : Client lib). IsClient lib client_id x.metadata) same is,
        subst
            (λ (x : Client lib).
              x.metadata.token_endpoint_auth_method ≡ "private_key_jwt" → x.jwks ≢ none)
            same
            (λ named.
              client_key-some (jwks_cache client_id) m key chosen
                ((eq_iff m.token_endpoint_auth_method "private_key_jwt").1 named)),
        subst IsValidated (ap (λ (z : Got). z.1) e2) kept,
      )
