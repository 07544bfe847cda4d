-- ===== src/Base/Text.antt =====
-- Texts: Python's `str`, compared and split by code points.
pub use text.Mathlib.TextEquality.{eq_iff}
use text.Mathlib.Text
use Prim.Native.Nat.{ℕ, zero, suc, ◌+◌, ◌-◌, ◌*◌, ◌/◌, ◌%◌}
use mathlib.Core.Path.{◌≡◌, refl}
use Prim.Native.Char.{Char, code}
use Prim.Native.String
use Prim.Native.String.{String}
use mathlib.Core.Bool.{Bool, true, ◌&&◌, ◌||◌}
use mathlib.Core.Option.{Option, none, some}
use mathlib.Core.List.{List, [], ◌∷◌}
use wms_core.Base.Logic.{◌==◌, ltb, leb, if◌then◌else◌}

abbrev pub str_eq : String → String → Bool
str_eq = Text.◌==◌

-- `a + b`
infixr 65 ◌+s◌
abbrev pub ◌+s◌ : String → String → String
◌+s◌ = Prim.Native.String.◌++◌

abbrev prepend : Char → List String → List String
prepend c [] = String.◌∷◌ c String.[] ∷ []
prepend c (part ∷ parts) = String.◌∷◌ c part ∷ parts

-- `text.split(c)` for a character of code `c`.
unfoldable pub split : ℕ → String → List String
split c String.[] = String.[] ∷ []
split c (String.◌∷◌ h text) =
    let parts = split c text in if code h == c then String.[] ∷ parts else prepend h parts

digits : ℕ → String → Option ℕ
digits n String.[] = some n
digits n (String.◌∷◌ h text) =
    let rest = digits (n * 10 + (code h - 48)) text in
    if leb 48 (code h) && leb (code h) 57 then rest else none

-- `int(text)` on a text of decimal digits; `none` where it raises `ValueError`.
unfoldable pub parse_int : String → Option ℕ
unfolding digits
parse_int String.[] = none
parse_int (String.◌∷◌ h text) = digits 0 (String.◌∷◌ h text)

abbrev digit : ℕ → String
digit zero = "0"
digit (suc zero) = "1"
digit (suc (suc zero)) = "2"
digit (suc (suc (suc zero))) = "3"
digit (suc (suc (suc (suc zero)))) = "4"
digit (suc (suc (suc (suc (suc zero))))) = "5"
digit (suc (suc (suc (suc (suc (suc zero)))))) = "6"
digit (suc (suc (suc (suc (suc (suc (suc zero))))))) = "7"
digit (suc (suc (suc (suc (suc (suc (suc (suc zero)))))))) = "8"
digit _ = "9"

-- A number below the fuel has its digits.
str_fuel : ℕ → ℕ → String
str_fuel zero n = ""
str_fuel (suc fuel) n =
    let front = str_fuel fuel (n / 10) in if ltb n 10 then digit n else front +s digit (n % 10)

-- `str(n)`; `n + 1` rounds are more than its digits.
unfoldable pub str_of : ℕ → String
unfolding str_fuel
str_of n = str_fuel (n + 1) n

str_of-parse_int : parse_int (str_of 1207) ≡ some 1207
unfolding str_of parse_int
str_of-parse_int = refl

-- The characters that `str.strip` takes off.
abbrev is_space : ℕ → Bool
is_space c =
    (leb 9 c && leb c 13)
    || (leb 28 c && leb c 32)
    || c == 133
    || c == 160
    || c == 5760
    || (leb 8192 c && leb c 8202)
    || c == 8232
    || c == 8233
    || c == 8239
    || c == 8287
    || c == 12288

-- `not text.strip()`
unfoldable pub is_blank : String → Bool
is_blank String.[] = true
is_blank (String.◌∷◌ c text) = is_space (code c) && is_blank text
