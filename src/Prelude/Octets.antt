-- ===== src/Prelude/Octets.antt =====
-- Byte strings, the bytes of a text, and the cryptographic functions that the server calls.
use Prim.Native.Nat.{ℕ, ◌+◌, ◌/◌, ◌%◌, ◌^◌}
use Prim.Native.Char.{code}
use Prim.Native.String.{String}
use mathlib.Core.Option.{Option}
use mathlib.Core.List.{List, [], ◌∷◌, ◌++◌}
use vow.Prelude.Tests.{ltb, if◌then◌else◌}

abbrev pub Bytes : Type 0
Bytes = List ℕ

abbrev pub u64_mod : ℕ
u64_mod = 2 ^ 64

-- The UTF-8 bytes of a code point.
unfoldable pub utf8_char : ℕ → Bytes
utf8_char c =
    if ltb c 128
    then c ∷ []
    else if ltb c 2048
    then (192 + c / 64) ∷ (128 + c % 64) ∷ []
    else if ltb c 65536
    then (224 + c / 4096) ∷ (128 + c / 64 % 64) ∷ (128 + c % 64) ∷ []
    else (240 + c / 262144) ∷ (128 + c / 4096 % 64) ∷ (128 + c / 64 % 64) ∷ (128 + c % 64) ∷ []

-- The conversion `[]byte(s)`.
unfoldable pub bytes : String → Bytes
unfolding utf8_char
bytes String.[] = []
bytes (String.◌∷◌ c s) = utf8_char (code c) ++ bytes s

-- Go's crypto/hmac, crypto/sha256 and encoding/base64, which the server calls and does not implement.
pub record Crypto : Type 0 where
  pub hmac_sha256 : Bytes → Bytes → Bytes
  pub sha256 : Bytes → Bytes
  pub raw_url_encode : Bytes → String
  pub raw_url_decode : String → Option Bytes
