-- ===== src/Auth/Authed/Sound.antt =====
-- server/middleware.go: what a request has shown that reaches a handler.
use vow.Prelude.{
  ℕ, ◌/◌, ◌≡◌, ◌≤◌, ap, subst, sym, ◌∙◌, arith, String, eq_iff, Bool, true, false, not, ◌&&◌,
  Bool-cases, Option, none, some, List, ltb, ok, some_of, inl, inr, ◌⊎◌,
}
use vow.Prelude.Results.{bind_ok, passed, required, ok_injective}
use vow.Dpop.Nonce.{second}
use vow.Dpop.Jose.{MapClaims, Json, text, number, other, lookup, text_claim, number_claim}
use vow.Auth.{
  IsVerifying, RepoActor, RefreshToken, Request, Context, Jwts, text_claim?, invalid_token,
  expired_token, server_error, panicked, bad_request,
}
use vow.Auth.Legacy.{
  Lookup, issuer, verified, check_scope, has_refresh_token, account, bearer, is_refresh, is_some,
  server_keyfunc, last_segment, is_text,
}

module _ (lib : Jwts) (Signed : String → String → lib.Key → Type 0) where
  -- The server signed the token with ECDSA, or the account, in compat mode, with its own key.
  pub record IsSigned (token : String) (ctx : Context) : Type 0 where
    pub alg : String
    pub key : lib.Key
    pub signed : Signed token alg key
    pub by :
        ((lib.is_ecdsa alg ≡ true) × (lib.server_key ≡ key))
        ⊎ ((ctx.repo.compat_mode ≡ true) × (lib.user_key ctx.did ≡ some key))

module _ (lib : Jwts) (Signed : String → String → lib.Key → Type 0)
    (laws : IsVerifying lib Signed) where
  parse_server :
      (token : String) (ctx : Context)
      → lib.parse token (server_keyfunc lib) ≡ some true
      → IsSigned lib Signed token ctx
  parse_server token ctx e =
      let (alg, key, chosen, signed) = laws token (server_keyfunc lib) e in
      record { alg = alg; key = key; signed = signed; by = inl (ground arith) }

  parse_user :
      (token : String) (ctx : Context) (key : lib.Key)
      → ctx.repo.compat_mode ≡ true
      → lib.user_key ctx.did ≡ some key
      → lib.parse token (λ alg. some key) ≡ some true
      → IsSigned lib Signed token ctx
  parse_user token ctx key compat found e =
      let (alg, k, chosen, signed) = laws token (λ alg. some key) e in
      record { alg = alg; key = k; signed = signed; by = inr (compat, found ∙ chosen) }

  verified-IsSigned :
      (repo_of : Lookup) (claims : MapClaims) (iss : Option (String × RepoActor)) (token : String)
      (ctx : Context)
      → verified lib iss token ≡ ok true
      → account repo_of claims token iss ≡ ok ctx
      → IsSigned lib Signed token ctx
  unfolding verified account
  verified-IsSigned repo_of claims none token ctx v a = parse_server token ctx (ground arith)
  verified-IsSigned repo_of claims (some (did, repo)) token ctx v a =
      elim (Bool-cases repo.compat_mode) [
        | inr plain ↦ parse_server token ctx (ground arith)
        | inl compat ↦
            let (key, found) = some_of (lib.user_key did) (λ e. ground arith) in
            parse_user token ctx key (ground arith) (ground arith) (ground arith)
      ]

is_text-eq : (v : Json) (s : String) → is_text v s ≡ true → v ≡ text s
is_text-eq (text t) s e = ap text ((eq_iff t s).0 e)
is_text-eq (number n) s e = absurd (ground arith)
is_text-eq other s e = absurd (ground arith)

module _ (repo_of : Lookup) where
  -- A token for a service is for the method that is called, and is the issuer's.
  issuer-some :
      (r : Request) (claims : MapClaims) (iss : Option (String × RepoActor)) (lxm : Json)
      (token : String) (ctx : Context)
      → issuer repo_of r claims ≡ ok iss
      → account repo_of claims token iss ≡ ok ctx
      → lookup "lxm" claims ≡ some lxm
      → (lxm ≡ text (last_segment r.url))
        × (text_claim? "iss" claims ≡ some ctx.did)
        × (repo_of ctx.did ≡ some ctx.repo)
  unfolding issuer account
  issuer-some r claims iss lxm token ctx i a e =
      let i0 = rw (issuer, e) at i in
      let (named, i1) = passed (not (is_text lxm (last_segment r.url))) bad_request _ iss i0 in
      let (did, from, i2) = required (text_claim? "iss" claims) bad_request _ iss i1 in
      let (repo, found, i3) = required (repo_of did) server_error _ iss i2 in
      let iss_is : some (did, repo) ≡ iss = ground arith in
      let a0 = rw (account, ← iss_is) at a in
      (
        is_text-eq lxm (last_segment r.url) (ground arith),
        from ∙ ap (λ (c : Context). some c.did) (ok_injective _ ctx a0),
        ap (λ (c : Context). repo_of c.did) (sym (ok_injective _ ctx a0))
            ∙ (found ∙ ap (λ (c : Context). some c.repo) (ok_injective _ ctx a0)),
      )

  issuer-none :
      (r : Request) (claims : MapClaims) (iss : Option (String × RepoActor)) (token : String)
      (ctx : Context)
      → issuer repo_of r claims ≡ ok iss
      → account repo_of claims token iss ≡ ok ctx
      → lookup "lxm" claims ≡ none
      → (is_some iss ≡ false)
        × (sub : String) × (text_claim? "sub" claims ≡ some sub)
        × (repo_of sub ≡ some ctx.repo)
        × (ctx.did ≡ ctx.repo.did)
  unfolding issuer account
  issuer-none r claims iss token ctx i a e =
      let i0 = rw (issuer, e) at i in
      let iss_is : none ≡ iss = ground arith in
      let a0 = rw (account, ← iss_is) at a in
      let (sub, named, a1) = required (text_claim? "sub" claims) panicked _ ctx a0 in
      let (repo, found, a2) = required (repo_of sub) server_error _ ctx a1 in
      (
        sym (ap is_some iss_is),
        sub,
        named,
        found ∙ ap (λ (c : Context). some c.repo) (ok_injective _ ctx a2),
        sym (ap (λ (c : Context). c.did) (ok_injective _ ctx a2))
            ∙ ap (λ (c : Context). c.repo.did) (ok_injective _ ctx a2),
      )

module _ (lib : Jwts) (Signed : String → String → lib.Key → Type 0) (repo_of : Lookup)
    (refresh_tokens : List RefreshToken) (now : ℕ) where
  -- What a bearer token has shown. One with an `lxm` claim is its issuer's, for the method that is
  -- called; any other is its subject's, with the scope for its use; a refresh token is in its table.
  pub record IsBearer (r : Request) (token : String) (ctx : Context) : Type 0 where
    pub claims : MapClaims
    pub parsed : lib.parse_unverified token ≡ some claims
    pub signed : IsSigned lib Signed token ctx
    pub for_service :
        (lxm : Json)
        → lookup "lxm" claims ≡ some lxm
        → (lxm ≡ text (last_segment r.url))
          × (text_claim? "iss" claims ≡ some ctx.did)
          × (repo_of ctx.did ≡ some ctx.repo)
    pub for_session :
        lookup "lxm" claims ≡ none
        → (sub : String) × (text_claim? "sub" claims ≡ some sub)
          × (repo_of sub ≡ some ctx.repo)
          × (ctx.did ≡ ctx.repo.did)
    pub for_access :
        lookup "lxm" claims ≡ none
        → is_refresh r ≡ false
        → text_claim "scope" claims ≡ "com.atproto.access"
    pub for_refresh :
        is_refresh r ≡ true
        → (text_claim "scope" claims ≡ "com.atproto.refresh")
          × (has_refresh_token token refresh_tokens ≡ true)
    pub exp : ℕ
    pub expires : number_claim "exp" claims ≡ some exp
    pub live : now / second ≤ exp

  check_scope-access :
      (r : Request) (claims : MapClaims)
      → check_scope r claims false ≡ ok tt
      → is_refresh r ≡ false
      → text_claim "scope" claims ≡ "com.atproto.access"
  unfolding check_scope
  check_scope-access r claims e h =
      ground (arith, eq_iff (text_claim "scope" claims) "com.atproto.access")

  check_scope-refresh :
      (r : Request) (claims : MapClaims) (has_lxm : Bool)
      → check_scope r claims has_lxm ≡ ok tt
      → is_refresh r ≡ true
      → text_claim "scope" claims ≡ "com.atproto.refresh"
  unfolding check_scope
  check_scope-refresh r claims has_lxm e h =
      ground (arith, eq_iff (text_claim "scope" claims) "com.atproto.refresh")

  pub bearer-IsBearer :
      (laws : IsVerifying lib Signed) (r : Request) (token : String) (ctx : Context)
      → bearer lib repo_of refresh_tokens now r token ≡ ok ctx
      → IsBearer r token ctx
  unfolding bearer
  bearer-IsBearer laws r token ctx e =
      let (claims, parsed, e1) = required (lib.parse_unverified token) invalid_token _ ctx e in
      let (iss, issued, e2) = bind_ok (issuer repo_of r claims) _ ctx e1 in
      let (valid, v, e3) = bind_ok (verified lib iss token) _ ctx e2 in
      let (good, e4) = passed (not valid) invalid_token _ ctx e3 in
      let (u, scoped, e5) = bind_ok (check_scope r claims (is_some iss)) _ ctx e4 in
      let (kept, e6) =
        passed (is_refresh r && not (has_refresh_token token refresh_tokens)) invalid_token _ ctx
          e5 in
      let (exp, expires, e7) = required (number_claim "exp" claims) server_error _ ctx e6 in
      let (live, e8) = passed (ltb exp (now / second)) expired_token _ ctx e7 in
      record {
        claims = claims;
        parsed = parsed;
        signed =
            verified-IsSigned lib Signed laws repo_of claims iss token ctx
              (v ∙ ap ok (ground arith)) e8;
        for_service = λ lxm h. issuer-some repo_of r claims iss lxm token ctx issued e8 h;
        for_session = λ h.
            let (x, sub, named, found, same) =
              issuer-none repo_of r claims iss token ctx issued e8 h in
            (sub, named, found, same);
        for_access = λ h. check_scope-access r claims (
            subst (λ b. check_scope r claims b ≡ ok tt)
              (issuer-none repo_of r claims iss token ctx issued e8 h).0 scoped);
        for_refresh = λ h. (check_scope-refresh r claims (is_some iss) scoped h, ground arith);
        exp = exp;
        expires = expires;
        live = ground arith;
      }
