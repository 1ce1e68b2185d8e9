-- ===== src/Auth/Authed/Handed.antt =====
-- server/middleware.go: the requests that reach a handler behind both middlewares.
use vow.Prelude.{
  ℕ, ◌≡◌, ◌≢◌, ◌≤◌, refl, ap, sym, ◌∙◌, arith, String, str_eq, eq_iff, false, not, Bool-cases,
  Option, some, List, ltb, split_on, Crypto, Result, ok, err, inl, inr, ◌⊎◌,
}
use vow.Prelude.Results.{bind_ok as bind_result, passed, ok_injective}
use vow.Prelude.Action.{lift, ran, had, went_on}
use vow.Dpop.Jose.{Jose, JtiCache}
use vow.Dpop.Proof.{Proof, ProofError}
use vow.Dpop.Manager.{Manager, check_proof, next_nonce}
use vow.Dpop.Manager.Soundness.{IsAccepted, check_proof-IsAccepted}
use vow.TokenEndpoint.{OauthToken}
use vow.Auth.{
  IsVerifying, RefreshToken, Request, Context, Jwts, AuthError, two, invalid_token, expired_token,
  server_error, unauthorized, bad_header, not_bound, jkt_mismatch, missing_proof,
}
use vow.Auth.Legacy.{Lookup, bearer, scheme, legacy, header_of}
use vow.Auth.Authed.{scan_token, with_proof, as_auth, dpop_session, on_scheme, oauth, authed}
use vow.Auth.Authed.Sound.{IsBearer, bearer-IsBearer}

as_auth-ok : {A : Type 0} (r : Result ProofError A) (a : A) → as_auth r ≡ ok a → r ≡ ok a
as_auth-ok (ok x) a e = ap ok (ok_injective x a e)
as_auth-ok (err x) a e = absurd (ground arith)

module _ (c : Crypto) (j : Jose) (k : JtiCache) (repo_of : Lookup) (oauth_tokens : List OauthToken)
    (now : ℕ) where
  -- A token of OAuth, found in its table, that has not expired, with a proof of the key that it is
  -- bound to, made for this request and this token.
  pub record IsDpop (r : Request) (token : String) (m : Manager k) (ctx : Context) : Type 0 where
    pub proof : Proof
    pub accepted :
        IsAccepted c j k now r.method r.request_url r.dpop_headers
          (some token)
          (next_nonce c k m now).0
          proof
    pub found : (scan_token token oauth_tokens).token ≢ ""
    pub bound : (scan_token token oauth_tokens).parameters.dpop_jkt ≡ some proof.jkt
    pub live : now ≤ (scan_token token oauth_tokens).expires_at
    pub repo : repo_of (scan_token token oauth_tokens).sub ≡ some ctx.repo
    pub did : ctx.did ≡ ctx.repo.did
    pub scopes : ctx.scopes ≡ split_on " " (scan_token token oauth_tokens).parameters.scope

  pub dpop_session-IsDpop :
      (r : Request) (token : String) (m n : Manager k) (ctx : Context)
      → dpop_session c j k repo_of oauth_tokens now r token m ≡ (ok ctx, n)
      → IsDpop r token m ctx
  unfolding dpop_session
  dpop_session-IsDpop r token m n ctx e =
      let t = scan_token token oauth_tokens in
      let m1 = (next_nonce c k m now).0 in
      let check = check_proof c j k now r.method r.request_url r.dpop_headers (some token) in
      let (found, checked, e1) = ran (with_proof check) _ ctx m1 n e in
      let m2 = (with_proof check m1).1 in
      let (proof, some_proof, e2) = had found missing_proof _ ctx m2 n e1 in
      let (there, e3) = went_on (str_eq t.token "") invalid_token _ ctx m2 n e2 in
      let (jkt, has_jkt, e4) = had t.parameters.dpop_jkt not_bound _ ctx m2 n e3 in
      let (same, e5) = went_on (not (str_eq jkt proof.jkt)) jkt_mismatch _ ctx m2 n e4 in
      let (live, e6) = went_on (ltb t.expires_at now) expired_token _ ctx m2 n e5 in
      let (repo, known, e7) = had (repo_of t.sub) server_error _ ctx m2 n e6 in
      let same_jkt : jkt ≡ proof.jkt = (eq_iff jkt proof.jkt).0 (ground arith) in
      let is : record {
        repo = repo;
        did = repo.did;
        token = token;
        scopes = split_on " " t.parameters.scope;
      }
          ≡ ctx =
        ok_injective _ ctx (ap (λ (z : Result AuthError Context × Manager k). z.0) e7) in
      record {
        proof = proof;
        accepted =
            check_proof-IsAccepted c j k now r.method r.request_url r.dpop_headers (some token) m1
              proof (as_auth-ok (check m1).0 (some proof) (checked ∙ ap ok some_proof));
        found = λ h. ground (arith, eq_iff t.token "");
        bound = has_jkt ∙ ap some same_jkt;
        live = ground arith;
        repo = known ∙ ap (λ (x : Context). some x.repo) is;
        did = sym (ap (λ (x : Context). x.did) is) ∙ ap (λ (x : Context). x.repo.did) is;
        scopes = sym (ap (λ (x : Context). x.scopes) is);
      }

module _ (c : Crypto) (j : Jose) (k : JtiCache) (lib : Jwts)
    (Signed : String → String → lib.Key → Type 0) (repo_of : Lookup)
    (oauth_tokens : List OauthToken) (refresh_tokens : List RefreshToken) (now : ℕ) where
  -- Who a handled request is from, and how it has shown this.
  pub record IsAuthenticated (r : Request) (m : Manager k) (handed : Option Context) : Type 0 where
    pub scheme : String
    pub token : String
    pub header : two (split_on " " r.authorization) ≡ some (scheme, token)
    pub ctx : Context
    pub given : handed ≡ some ctx
    pub shown :
        ((scheme ≡ "DPoP") × IsDpop c j k repo_of oauth_tokens now r token m ctx)
        ⊎ ((scheme ≢ "DPoP") × IsBearer lib Signed repo_of refresh_tokens now r token ctx)

  header_of-authorization :
      (r : Request) → str_eq r.authorization "" ≡ false → header_of r ≡ r.authorization
  header_of-authorization r h = rw h refl

  legacy-scheme :
      (r : Request) (pts : String × String) (before : Option Context)
      → str_eq r.authorization "" ≡ false
      → two (split_on " " r.authorization) ≡ some pts
      → legacy lib repo_of refresh_tokens now r ≡ ok before
      → scheme lib repo_of refresh_tokens now r pts.0 pts.1 ≡ ok before
  unfolding legacy
  legacy-scheme r pts before there split l =
      let (x, l1) = passed (str_eq (header_of r) "") unauthorized _ before l in
      let same : two (split_on " " (header_of r)) ≡ some pts =
        ap (λ (s : String). two (split_on " " s)) (header_of-authorization r there) ∙ split in
      rw same at l1

  -- The scheme of the header decides which of the two middlewares finds the context.
  on_scheme-IsAuthenticated :
      (laws : IsVerifying lib Signed) (r : Request) (pts : String × String)
      (before handed : Option Context) (m n : Manager k)
      → two (split_on " " r.authorization) ≡ some pts
      → scheme lib repo_of refresh_tokens now r pts.0 pts.1 ≡ ok before
      → on_scheme c j k repo_of oauth_tokens now r before pts m ≡ (ok handed, n)
      → IsAuthenticated r m handed
  unfolding scheme
  on_scheme-IsAuthenticated laws r pts before handed m n split l o =
      elim (Bool-cases (str_eq pts.0 "DPoP")) [
        | inl dpop ↦
            let o0 = rw dpop at o in
            let (ctx, found, o1) =
              ran (dpop_session c j k repo_of oauth_tokens now r pts.1) _ handed m n o0 in
            let m1 = (dpop_session c j k repo_of oauth_tokens now r pts.1 m).1 in
            record {
              scheme = pts.0;
              token = pts.1;
              header = split;
              ctx = ctx;
              given = sym (
                  ok_injective _ handed
                    (ap (λ (z : Result AuthError (Option Context) × Manager k). z.0) o1));
              shown = inl (
                (eq_iff pts.0 "DPoP").0 dpop,
                dpop_session-IsDpop c j k repo_of oauth_tokens now r pts.1 m m1 ctx
                    (λ i. (found i, m1)),
              );
            }
        | inr other ↦
            let o0 = rw other at o in
            let l0 = rw (scheme, other) at l in
            let (ctx, found, l1) =
              bind_result (bearer lib repo_of refresh_tokens now r pts.1) _ before l0 in
            record {
              scheme = pts.0;
              token = pts.1;
              header = split;
              ctx = ctx;
              given =
                  sym (
                    ok_injective _ handed
                      (ap (λ (z : Result AuthError (Option Context) × Manager k). z.0) o0))
                  ∙ sym (ok_injective _ before l1);
              shown = inr (
                λ h. ground (arith, eq_iff pts.0 "DPoP"),
                bearer-IsBearer lib Signed repo_of refresh_tokens now laws r pts.1 ctx found,
              );
            }
      ]

  -- A request that reaches a handler has its account in the context, and has shown that it is from
  -- there. With the scheme DPoP it is by a token of OAuth that is in its table, has not expired, and is
  -- bound to the key of a proof which CheckProof accepts for this request and this token. With any
  -- other it is by a bearer token that has not expired, is the account's, for the use it is put to, and
  -- is signed by the server, or by the account's own key in compat mode, where the JWT library verifies
  -- what it calls valid.
  pub authed-IsAuthenticated :
      (laws : IsVerifying lib Signed) (r : Request) (m n : Manager k) (handed : Option Context)
      → authed c j k repo_of oauth_tokens now lib refresh_tokens r m ≡ (ok handed, n)
      → IsAuthenticated r m handed
  unfolding authed oauth
  authed-IsAuthenticated laws r m n handed e =
      let (before, l, o) = ran (lift (legacy lib repo_of refresh_tokens now r)) _ handed m n e in
      let (there, o1) = went_on (str_eq r.authorization "") unauthorized _ handed m n o in
      let (pts, split, o2) = had (two (split_on " " r.authorization)) bad_header _ handed m n o1 in
      on_scheme-IsAuthenticated laws r pts before handed m n split
        (legacy-scheme r pts before there split l) o2

  -- The token of the query, for WebSockets, is of no use: the second middleware reads the header
  -- only, so that a request without one never reaches a handler.
  pub authed_without_header :
      (r : Request) (m : Manager k) (handed : Option Context)
      → r.authorization ≡ ""
      → (authed c j k repo_of oauth_tokens now lib refresh_tokens r m).0 ≢ ok handed
  unfolding authed oauth
  authed_without_header r m handed h e =
      let (before, l, o) =
        ran (lift (legacy lib repo_of refresh_tokens now r)) _ handed m _
          (λ i. (e i, (authed c j k repo_of oauth_tokens now lib refresh_tokens r m).1)) in
      let (there, o1) = went_on (str_eq r.authorization "") unauthorized _ handed m _ o in
      ground (arith, eq_iff r.authorization "")
