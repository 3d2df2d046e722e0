-- ===== src/Common/Find.antt =====
-- Text: the methods of Python's `str` that search, cut and replace, and `str` of a number.
use Prim.Native.Nat.{ℕ, zero, suc, ◌/◌, ◌%◌}
use Prim.Native.Char.{code}
use Prim.Native.String.{String}
use mathlib.Core.Bool.{Bool, true, false, ◌&&◌, ◌||◌}
use mathlib.Core.List.{List, [], ◌∷◌, ◌++◌}
use mathlib.Core.Option.{Option, none, some}
use iib.Common.Tests.{leb, ltb, nat_eq, ◌==◌, if◌then◌else◌}
use iib.Common.Text.{◌⧺◌}

-- What follows the prefix.
abbrev pub strip_prefix : String → String → Option String
strip_prefix String.[] s = some s
strip_prefix (String.◌∷◌ c p) String.[] = none
strip_prefix (String.◌∷◌ c p) (String.◌∷◌ d s) =
    let rest = strip_prefix p s in if nat_eq (code c) (code d) then rest else none

abbrev pub is_some {ℓ} : {A : Type ℓ} → Option A → Bool
is_some none = false
is_some (some a) = true

-- `s.startswith(p)`
abbrev pub starts_with : String → String → Bool
starts_with p s = is_some (strip_prefix p s)

-- What follows the last place of `p` in `s`.
unfoldable pub after_last : String → String → Option String
after_last p String.[] = strip_prefix p String.[]
after_last p (String.◌∷◌ c s) = elim (after_last p s) [
  | some rest ↦ some rest
  | none ↦ strip_prefix p (String.◌∷◌ c s)
]

-- `p in s`
unfoldable pub contains_text : String → String → Bool
unfolding after_last
contains_text p s = is_some (after_last p s)

-- `s.split(p)[-1]`, for a text `p` that does not overlap itself
unfoldable pub last_piece : String → String → String
unfolding after_last
last_piece p s = elim (after_last p s) [ some rest ↦ rest | none ↦ s ]

-- `s.split(c, 1)[0]`
unfoldable pub before_first : ℕ → String → String
before_first c String.[] = String.[]
before_first c (String.◌∷◌ d s) =
    let rest = before_first c s in if nat_eq (code d) c then String.[] else String.◌∷◌ d rest

-- What stands before the last `c`.
unfoldable pub before_last? : ℕ → String → Option String
before_last? c String.[] = none
before_last? c (String.◌∷◌ d s) = elim (before_last? c s) [
  | some front ↦ some (String.◌∷◌ d front)
  | none ↦ if nat_eq (code d) c then some String.[] else none
]

-- `s.rsplit(c, 1)[0]`
unfoldable pub before_last : ℕ → String → String
unfolding before_last?
before_last c s = elim (before_last? c s) [ some front ↦ front | none ↦ s ]

-- `s.replace(old, new, 1)`
unfoldable pub replace_first : String → String → String → String
replace_first old new String.[] = elim (strip_prefix old String.[]) [
  | some rest ↦ new ⧺ rest
  | none ↦ String.[]
]
replace_first old new (String.◌∷◌ c s) = elim (strip_prefix old (String.◌∷◌ c s)) [
  | some rest ↦ new ⧺ rest
  | none ↦ String.◌∷◌ c (replace_first old new s)
]

-- `s.rstrip(c)`
unfoldable pub rstrip : ℕ → String → String
rstrip c String.[] = String.[]
rstrip c (String.◌∷◌ d s) =
    let rest = rstrip c s in
    if nat_eq (code d) c && rest == "" then String.[] else String.◌∷◌ d rest

-- Where Python's `str` is split into lines, and what `strip` takes off beside.
abbrev pub is_line_break : ℕ → Bool
is_line_break c =
    leb 10 c && leb c 13 || leb 28 c && leb c 30 || nat_eq c 133 || leb 8232 c && leb c 8233

abbrev pub is_space : ℕ → Bool
is_space c =
    leb 9 c && leb c 13
    || leb 28 c && leb c 32
    || nat_eq c 133
    || nat_eq c 160
    || nat_eq c 5760
    || leb 8192 c && leb c 8202
    || leb 8232 c && leb c 8233
    || nat_eq c 8239
    || nat_eq c 8287
    || nat_eq c 12288

abbrev pub lstrip : String → String
lstrip String.[] = String.[]
lstrip (String.◌∷◌ c s) = let rest = lstrip s in if is_space (code c) then rest else String.◌∷◌ c s

-- `s.rstrip()`
abbrev pub rstrip_space : String → String
rstrip_space String.[] = String.[]
rstrip_space (String.◌∷◌ c s) =
    let rest = rstrip_space s in
    if is_space (code c) && rest == "" then String.[] else String.◌∷◌ c rest

-- `s.strip()`
unfoldable pub strip : String → String
strip s = rstrip_space (lstrip s)

-- `s.splitlines()`: `line` is what has been read of the line, and `returned` says that the last
-- character was a carriage return, after which a line feed ends no line of its own.
abbrev pub split_lines_from : (line : String) → (returned : Bool) → String → List String
split_lines_from line returned String.[] = if line == "" then [] else line ∷ []
split_lines_from line returned (String.◌∷◌ c s) =
    let breaks = is_line_break (code c) in
    let next_line = if breaks then "" else line ⧺ String.◌∷◌ c String.[] in
    let rest = split_lines_from next_line (nat_eq (code c) 13) s in
    if returned && nat_eq (code c) 10 then rest else if breaks then line ∷ rest else rest

unfoldable pub split_lines : String → List String
split_lines s = split_lines_from "" false s

-- `reversed(xs)`
abbrev pub reversed {ℓ} : {A : Type ℓ} → List A → List A
reversed [] = []
reversed (x ∷ xs) = reversed xs ++ x ∷ []

-- `separator.join(xs)`
abbrev pub join : String → List String → String
join separator [] = ""
join separator (s ∷ []) = s
join separator (s ∷ t ∷ ss) = s ⧺ separator ⧺ join separator (t ∷ ss)

abbrev pub item_or_empty : List String → ℕ → String
item_or_empty [] n = ""
item_or_empty (s ∷ ss) zero = s
item_or_empty (s ∷ ss) (suc n) = item_or_empty ss n

abbrev pub digit : ℕ → String
digit n = item_or_empty ("0" ∷ "1" ∷ "2" ∷ "3" ∷ "4" ∷ "5" ∷ "6" ∷ "7" ∷ "8" ∷ "9" ∷ []) n

-- Each round takes off a digit, so that as many rounds as the number says are enough.
abbrev pub decimal_from : (fuel n : ℕ) → String
decimal_from zero n = digit n
decimal_from (suc fuel) n = elim (ltb n 10) [
  | true ↦ digit n
  | false ↦ decimal_from fuel (n / 10) ⧺ digit (n % 10)
]

-- `str(n)`
unfoldable pub decimal : ℕ → String
decimal n = decimal_from n n

-- `s <= t`, by code points
abbrev pub text_leb : String → String → Bool
text_leb String.[] t = true
text_leb (String.◌∷◌ c s) String.[] = false
text_leb (String.◌∷◌ c s) (String.◌∷◌ d t) =
    let rest = text_leb s t in if nat_eq (code c) (code d) then rest else leb (code c) (code d)

abbrev pub insert_text : String → List String → List String
insert_text s [] = s ∷ []
insert_text s (t ∷ ts) =
    let rest = insert_text s ts in if text_leb s t then s ∷ t ∷ ts else t ∷ rest

-- `sorted(xs)`
unfoldable pub sorted : List String → List String
sorted [] = []
sorted (s ∷ ss) = insert_text s (sorted ss)
