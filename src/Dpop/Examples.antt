-- ===== src/Dpop/Examples.antt =====
-- Tests of oauth/dpop at concrete inputs, and the theorems applied there.
use Prim.Native.Char.{code}
use vow.Prelude.{
  ◌/◌, ℕ, zero, suc, ◌*◌, ◌≡◌, refl, ap, arith, String, str_eq, true, false, Option, none, some,
  List, [], ◌∷◌, Bytes, Crypto, ok, if◌then◌else◌,
}
use vow.Dpop.Nonce.{NonceArgs, new_nonce, next_nonce, check, second, rotate, effective_interval}
use vow.Prelude.{some_of}
use vow.Dpop.Nonce.{compute, put_uint64}
use vow.Dpop.Htu.{Url, oauth_parse_htu, oauth_normalize_htu}
use vow.Dpop.Jose.{
  Jose, JtiCache, text, number, MapClaims, Key, ec, Keyfunc, Token, elem, text_claim, number_claim,
}
use vow.Dpop.Proof.{
  Proof, extract_proof, keyfunc, check_age, verify_proof, check_times, check_target, check_ath,
  finish,
}
use vow.Dpop.Manager.{Manager, check_present, check_proof}
use vow.Dpop.Manager.Soundness.{IsAccepted, check_proof-IsAccepted}
use vow.Dpop.Manager.Replay.{IsExpirable, replay_accepted}
use vow.Dpop.Nonce.Window.{IsWindow, rotate-IsWindow, new_nonce-IsWindow}
use vow.Dpop.Nonce.Lifetime.{Call, hands_out, checks, run, IsCollisionFree, check-next_nonce}

-- A text for each byte string, and another for another: every byte in unary.
spell_byte : ℕ → String → String
spell_byte zero rest = String.◌∷◌ ";" rest
spell_byte (suc n) rest = String.◌∷◌ "a" (spell_byte n rest)

unfoldable pub spell : Bytes → String
unfolding spell_byte
spell [] = ""
spell (b ∷ bs) = spell_byte b (spell bs)

apart : String → ℕ
apart String.[] = 0
apart (String.◌∷◌ c s) = code c

rest_of : String → String
rest_of String.[] = ""
rest_of (String.◌∷◌ c s) = s

spell_byte_injective :
    (a b : ℕ) (s t : String) → spell_byte a s ≡ spell_byte b t → (a ≡ b) × (s ≡ t)
unfolding spell_byte apart rest_of
spell_byte_injective zero zero s t e = (refl, ap rest_of e)
spell_byte_injective zero (suc b) s t e = absurd (omega (arith, ap apart e))
spell_byte_injective (suc a) zero s t e = absurd (omega (arith, ap apart e))
spell_byte_injective (suc a) (suc b) s t e =
    let h = spell_byte_injective a b s t (ap rest_of e) in (ap suc h.0, h.1)

starts : Bytes → ℕ
unfolding spell apart
starts bs = apart (spell bs)

spell_injective : (a b : Bytes) → spell a ≡ spell b → a ≡ b
unfolding spell apart spell_byte
spell_injective [] [] e = refl
spell_injective [] (zero ∷ b) e = absurd (omega (arith, ap apart e))
spell_injective [] (suc n ∷ b) e = absurd (omega (arith, ap apart e))
spell_injective (zero ∷ a) [] e = absurd (omega (arith, ap apart e))
spell_injective (suc n ∷ a) [] e = absurd (omega (arith, ap apart e))
spell_injective (x ∷ a) (y ∷ b) e =
    let h = spell_byte_injective x y (spell a) (spell b) e in cc (h.0, spell_injective a b h.1)

-- A MAC that is the message, and the encoding above.
abbrev pub toy : Crypto
toy = record {
  hmac_sha256 = λ secret message. message;
  sha256 = λ b. b;
  raw_url_encode = spell;
  raw_url_decode = λ s. none;
}

toy-IsCollisionFree : (secret : Bytes) → IsCollisionFree toy secret
toy-IsCollisionFree secret = record { separates = λ a b p q e. spell_injective a b e }

abbrev args : NonceArgs
args = record { rotation_interval = 0; secret = some (1 ∷ 2 ∷ []) }

-- The default interval is twenty seconds.
effective_interval_default : effective_interval 0 ≡ 20 * second
unfolding effective_interval
effective_interval_default = refl

abbrev traffic : List Call
traffic = checks (7 * second) "guess" ∷ hands_out (70 * second) ∷ []

rotate-IsWindow_example :
    IsWindow toy (rotate toy (new_nonce toy args [] (5 * second)).0 (31 * second))
    × ((rotate toy (new_nonce toy args [] (5 * second)).0 (31 * second)).counter
        ≡ 31 * second / (new_nonce toy args [] (5 * second)).0.rotation_interval)
    × ((rotate toy (new_nonce toy args [] (5 * second)).0 (31 * second)).secret
        ≡ (new_nonce toy args [] (5 * second)).0.secret)
    × ((rotate toy (new_nonce toy args [] (5 * second)).0 (31 * second)).rotation_interval
        ≡ (new_nonce toy args [] (5 * second)).0.rotation_interval)
rotate-IsWindow_example =
    rotate-IsWindow toy (new_nonce toy args [] (5 * second)).0 (31 * second)
      (new_nonce-IsWindow toy args [] (5 * second))

check-next_nonce_example :
    (check toy
      (run toy
        (next_nonce toy (run toy (new_nonce toy args [] 0).0 traffic) (90 * second)).0
        traffic)
      (130 * second)
      (next_nonce toy (run toy (new_nonce toy args [] 0).0 traffic) (90 * second)).1).1
    ≡ true
unfolding effective_interval
check-next_nonce_example =
    check-next_nonce toy args [] 0 (90 * second) (130 * second) traffic traffic (omega arith)
      (omega arith)

-- One proof, "proof", signed with an ES256 key, for GET https://pds.example/a at second 100.
abbrev pub claims : MapClaims
claims =
    ("iat", number 100)
    ∷ ("jti", text "j1")
    ∷ ("htm", text "GET")
    ∷ ("htu", text "https://pds.example/a")
    ∷ ("nonce", text ";;;;;;;aaaaaa;")
    ∷ []

abbrev key : Key
key = record { key_type = ec; raw = some (4 ∷ []); thumbprint = some (2 ∷ []) }

abbrev on_host : String → Url
on_host path = record {
  scheme = "https";
  user = none;
  host = "pds.example";
  path = path;
  raw_path = "";
}

abbrev toy_url_parse : String → Option Url
toy_url_parse s =
    if str_eq s "https://pds.example/a"
    then some (on_host "/a")
    else if str_eq s "https://pds.example/b"
    then some (on_host "/b")
    else none

unfoldable pub toy_parse : MapClaims → String → Keyfunc → List String → Option Token
toy_parse payload token keyfunc methods =
    if elem "ES256" methods
    then elim (keyfunc "ES256") [
      | none ↦ none
      | some k ↦ some (record { valid = true; claims = some payload })
    ]
    else none

pub toy_parse_checks :
    (payload : MapClaims) (token : String) (keyfunc : Keyfunc) (methods : List String) (t : Token)
    → toy_parse payload token keyfunc methods ≡ some t
    → (alg : String) × (k : Bytes) × (elem alg methods ≡ true)
      × (keyfunc alg ≡ some k)
      × (alg ≡ "ES256")
      × (t.claims ≡ some payload)
unfolding toy_parse
toy_parse_checks payload token keyfunc methods t h =
    let (k, chosen) = some_of (keyfunc "ES256") (λ e. ground arith) in
    ("ES256", k, ground arith, chosen, refl, ground arith)

-- Tokens with one payload.
abbrev pub toy_jose_of : MapClaims → Jose
toy_jose_of payload = record {
  parse_unverified = λ s. some (record { typ = "dpop+jwt"; jwk = some (some (9 ∷ [])) });
  parse_key = λ b. some key;
  parse = toy_parse payload;
  payload = λ token. some payload;
  Signed = λ token alg k. alg ≡ "ES256";
  parse_checks = toy_parse_checks payload;
  url_parse = toy_url_parse;
}

abbrev pub toy_jose : Jose
toy_jose = toy_jose_of claims

-- An unbounded cache: nothing is evicted.
abbrev pub unbounded : JtiCache
unbounded = record { Cache = List String; add = λ seen jti. (jti ∷ seen, false) }

unbounded-IsExpirable : IsExpirable unbounded
unbounded-IsExpirable = record {
  Holds = λ seen jti. Unit {0};
  add_holds = λ seen jti. tt;
  add_held = λ seen jti h. refl;
}

abbrev pub manager : Manager unbounded
manager = record { nonce = (new_nonce toy args [] (100 * second)).0; jti_cache = [] }

abbrev pub returned : Proof
returned = record { jti = "j1"; jkt = "aa;"; htm = "GET"; htu = "https://pds.example/a" }

accepts_the_proof :
    (check_proof toy toy_jose unbounded
      (101 * second)
      "GET"
      "https://pds.example/b"
      ("proof" ∷ [])
      none
      manager).0
    ≡ ok (some returned)
unfolding new_nonce check_proof check_present verify_proof check_times check_target check_ath finish
    check rotate compute put_uint64 spell toy_parse elem text_claim number_claim check_age keyfunc
    extract_proof oauth_parse_htu oauth_normalize_htu
accepts_the_proof = refl

check_proof-IsAccepted_example :
    IsAccepted toy toy_jose unbounded
      (101 * second)
      "GET"
      "https://pds.example/b"
      ("proof" ∷ [])
      none
      manager
      returned
check_proof-IsAccepted_example =
    check_proof-IsAccepted toy toy_jose unbounded (101 * second) "GET" "https://pds.example/b"
      ("proof" ∷ []) none manager returned accepts_the_proof

replay_accepted_example :
    (check_proof toy toy_jose unbounded
      (101 * second)
      "GET"
      "https://pds.example/b"
      ("proof" ∷ [])
      none
      (check_proof toy toy_jose unbounded
        (101 * second)
        "GET"
        "https://pds.example/b"
        ("proof" ∷ [])
        none
        manager).1).0
    ≡ ok (some returned)
replay_accepted_example =
    replay_accepted toy toy_jose unbounded unbounded-IsExpirable (101 * second) "GET"
      "https://pds.example/b" ("proof" ∷ []) none manager returned accepts_the_proof
