-- ===== src/Common/Format.antt =====
-- `str.format` with keyword arguments. A field is a plain name: one with a conversion, a format
-- specification, an attribute or an index is taken for a name that is not there.
use Prim.Native.Char.{Char, code}
use Prim.Native.String.{String}
use iib.Common.Tests.{nat_eq, if◌then◌else◌}
use iib.Common.Text.{◌⧺◌}
use iib.Exn.{Result, ok, err, ◌>>=◌, key_error, value_error, of_worker, index_error}
use mathlib.Core.Option.{Option, none, some}

-- What has been read: text, one brace that may open a field or stand doubled, or a field's name.
pub data Mode : Type 0 where
  text opened closed : Mode
  name : String → Mode

abbrev one : Char → String
one c = String.◌∷◌ c String.[]

-- The text that a character gives, and what has been read after it.
abbrev step : (look : String → Option String) → Mode → Char → Result (String × Mode)
step look text c =
    if nat_eq (code c) 123
    then ok ("", opened)
    else if nat_eq (code c) 125
    then ok ("", closed)
    else ok (one c, text)
step look opened c =
    if nat_eq (code c) 123
    then ok ("{", text)
    else if nat_eq (code c) 125
    then err (of_worker index_error)
    else ok ("", name (one c))
step look closed c = if nat_eq (code c) 125 then ok ("}", text) else err value_error
step look (name n) c =
    let field : Result (String × Mode) = elim (look n) [
      | some value ↦ ok (value, text)
      | none ↦ err key_error
    ] in
    if nat_eq (code c) 125
    then field
    else if nat_eq (code c) 123
    then err value_error
    else ok ("", name (n ⧺ one c))

abbrev format_from : (look : String → Option String) → Mode → String → Result String
format_from look text String.[] = ok ""
format_from look _ String.[] = err value_error
format_from look mode (String.◌∷◌ c s) =
    step look mode c >>= λ (out, mode'). format_from look mode' s >>= λ rest. ok (out ⧺ rest)

-- `template.format(**fields)`
unfoldable pub format : (look : String → Option String) → (template : String) → Result String
format look template = format_from look text template
