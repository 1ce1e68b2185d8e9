-- ===== src/TokenEndpoint/Exchange/Verifier.antt =====
-- server/handle_oauth_token.go: the code verifier.
use vow.Prelude.{
  ◌≡◌, ◌≢◌, ◌≤◌, refl, ◌∙◌, ap, arith, String, str_eq, eq_iff, true, inl, inr, Option, none, some,
  Option-cases, [], ◌∷◌, length, Bytes, bytes, ◌||◌,
}
use vow.TokenEndpoint.{ParRequest, Env, is_equal}
use vow.TokenEndpoint.Exchange.{check_method, check_verifier}

-- A challenge with the method "plain", or with none, is never met: every verifier is refused.
pub check_verifier-plain :
    (env : Env) (p : ParRequest) (challenge : String) (verifier : Option String)
    → p.code_challenge ≡ some challenge
    → (str_eq p.code_challenge_method "" || str_eq p.code_challenge_method "plain") ≡ true
    → check_verifier env p verifier ≢ none
unfolding check_verifier check_method
check_verifier-plain env p challenge verifier e m = ground arith

is_equal-eq : (xs ys : Bytes) → is_equal xs ys ≡ true → xs ≡ ys
is_equal-eq [] [] e = refl
is_equal-eq [] (y ∷ ys) e = absurd (ground arith)
is_equal-eq (x ∷ xs) [] e = absurd (ground arith)
is_equal-eq (x ∷ xs) (y ∷ ys) e = ground (arith, is_equal-eq xs ys)

-- A verifier that passes a challenge has at least 43 bytes, the method is S256, and the challenge
-- is the encoding of its hash.
pub check_verifier-S256 :
    (env : Env) (p : ParRequest) (challenge : String) (verifier : Option String)
    → p.code_challenge ≡ some challenge
    → check_verifier env p verifier ≡ none
    → (v : String) × (verifier ≡ some v)
      × (43 ≤ length (bytes v))
      × (p.code_challenge_method ≡ "S256")
      × (env.raw_url_decode challenge ≡ some (env.sha256 (bytes v)))
unfolding check_verifier check_method
check_verifier-S256 env p challenge none e ok_ = absurd (ground arith)
check_verifier-S256 env p challenge (some v) e ok_ =
    elim (Option-cases (env.raw_url_decode challenge)) [
      | inl bad ↦ absurd (ground arith)
      | inr (expected, decoded) ↦ (
        v,
        refl,
        ground arith,
        ground (arith, eq_iff p.code_challenge_method "S256"),
        decoded ∙ ap some (is_equal-eq expected (env.sha256 (bytes v)) (ground arith)),
      )
    ]
