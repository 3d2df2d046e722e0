-- ===== src/Common/Text.antt =====
-- Text: what the code asks of Python's `str` beside equality.
use Prim.Native.Nat.{ℕ, ◌+◌}
use Prim.Native.Char.{Char, code}
use mathlib.Core.Path.{◌≡◌}
use Prim.Native.String
use Prim.Native.String.append
use Prim.Native.String.{String}
use mathlib.Core.Bool.{Bool, true, false, ◌&&◌, ◌||◌}
use mathlib.Core.List.{List, [], ◌∷◌, map}
use iib.Common.Tests.{leb, nat_eq, if◌then◌else◌}

infixr 65 ◌⧺◌
-- `s + t`, and the parts of an f-string
abbrev pub ◌⧺◌ : String → String → String
s ⧺ t = String.◌++◌ s t

pub empty-⧺ : (t : String) → "" ⧺ t ≡ t
empty-⧺ t = append.nil t

pub cons-⧺ : (c : Char) (s t : String) → String.◌∷◌ c s ⧺ t ≡ String.◌∷◌ c (s ⧺ t)
cons-⧺ c s t = append.cons c s t

pub ruleset text_laws = (empty-⧺, cons-⧺)

-- `c in s` for one character, given by its code point
unfoldable pub has_char : ℕ → String → Bool
has_char c String.[] = false
has_char c (String.◌∷◌ d s) = nat_eq (code d) c || has_char c s

-- The code points of a text.
abbrev pub codes : String → List ℕ
codes String.[] = []
codes (String.◌∷◌ c s) = code c ∷ codes s

-- `str.lower` on the ASCII letters.
unfoldable pub lower_code : ℕ → ℕ
lower_code c = if leb 65 c && leb c 90 then c + 32 else c

abbrev pub codes_eq : List ℕ → List ℕ → Bool
codes_eq [] [] = true
codes_eq (c ∷ s) (d ∷ t) = nat_eq c d && codes_eq s t
codes_eq _ _ = false

-- `s.lower() == t` for an ASCII text `t` with neither `i` nor `k`: of those letters alone a
-- character beyond ASCII has a lower case that is, or begins with, an ASCII letter.
unfoldable pub lowers_to : String → String → Bool
unfolding lower_code
lowers_to s t = codes_eq (map lower_code (codes s)) (codes t)
