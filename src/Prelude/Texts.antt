-- ===== src/Prelude/Texts.antt =====
-- Texts cut at a character: Go's strings.Split with a separator of one character.
use Prim.Native.Char.{Char, code}
use Prim.Native.String.{String}
use mathlib.Core.List.{List, [], ◌∷◌}
use mathlib.Core.Bool.{Bool, true}
use text.Mathlib.Text.{◌==◌ as str_eq}
use vow.Prelude.Tests.{◌==◌, if◌then◌else◌}

abbrev on_first : Char → List String → List String
on_first c [] = String.◌∷◌ c "" ∷ []
on_first c (s ∷ ss) = String.◌∷◌ c s ∷ ss

unfoldable pub split_on : Char → String → List String
split_on sep String.[] = "" ∷ []
split_on sep (String.◌∷◌ c s) =
    let rest = split_on sep s in if code c == code sep then "" ∷ rest else on_first c rest

-- Go's strings.HasSuffix, the suffix first.
unfoldable pub ends_with : String → String → Bool
ends_with suffix String.[] = str_eq suffix ""
ends_with suffix (String.◌∷◌ c s) =
    let rest = ends_with suffix s in if str_eq suffix (String.◌∷◌ c s) then true else rest
