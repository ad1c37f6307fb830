-- ===== src/Common/Text.antt =====
-- What the code does with texts: comparison, `trim`, `toUpperCase`, concatenation.
-- `upper` is `toUpperCase` on ASCII, which exchange codes, tickers and enum names are.
use Prim.Native.Char.{Char, code}
use Prim.Native.Nat.{ℕ}
use Prim.Native.String.{String, [], ◌∷◌}
use mathlib.Core.Path.{◌≡◌, refl}
use mathlib.Core.Bool.{Bool, true, false, ◌&&◌, ◌||◌}
use mathlib.Core.Option.{Option, none, some}
use text.Mathlib.Text.{◌==◌ as text_eq}
use text.Mathlib.TextEquality.{eq_iff}
use kis_trader_back.Common.Tests.{leb, ◌==◌, if◌then◌else◌}

abbrev pub str_eq : String → String → Bool
str_eq s t = text_eq s t

abbrev pub is_empty : String → Bool
is_empty [] = true
is_empty (c ∷ s) = false

-- The white space and line terminators that `trim` removes.
unfoldable pub is_space : ℕ → Bool
is_space c =
    (leb 9 c && leb c 13)
    || c == 32
    || c == 0xA0
    || c == 0x1680
    || (leb 0x2000 c && leb c 0x200A)
    || c == 0x2028
    || c == 0x2029
    || c == 0x202F
    || c == 0x205F
    || c == 0x3000
    || c == 0xFEFF

unfoldable pub trim_start : String → String
trim_start [] = []
trim_start (c ∷ s) = let rest = trim_start s in if is_space (code c) then rest else c ∷ s

unfoldable pub trim_end : String → String
trim_end [] = []
trim_end (c ∷ s) =
    let rest = trim_end s in if is_space (code c) && is_empty rest then [] else c ∷ rest

unfoldable pub trim : String → String
unfolding is_space trim_start trim_end
trim s = trim_end (trim_start s)

-- The letter at the place of `c` in the first alphabet, taken from the second.
letter : String → String → Char → Char
letter (l ∷ ls) (u ∷ us) c = if code l == code c then u else letter ls us c
letter _ _ c = c

unfoldable pub upper : String → String
unfolding letter
upper [] = []
upper (c ∷ s) = letter "abcdefghijklmnopqrstuvwxyz" "ABCDEFGHIJKLMNOPQRSTUVWXYZ" c ∷ upper s

-- `toLowerCase` on ASCII.
unfoldable pub lower : String → String
unfolding letter
lower [] = []
lower (c ∷ s) = letter "ABCDEFGHIJKLMNOPQRSTUVWXYZ" "abcdefghijklmnopqrstuvwxyz" c ∷ lower s

-- `value.trim().toUpperCase()`.
unfoldable pub normalize : String → String
unfolding trim upper
normalize s = upper (trim s)

-- A text that `!value?.trim()` refuses: absent, empty, or white space only.
unfoldable pub is_blank : Option String → Bool
unfolding trim
is_blank none = true
is_blank (some s) = is_empty (trim s)

-- Two optional texts are `===`.
abbrev pub opt_eq : Option String → Option String → Bool
opt_eq none none = true
opt_eq (some s) (some t) = text_eq s t
opt_eq _ _ = false

pub str_eq_sound : (s t : String) → str_eq s t ≡ true → s ≡ t
str_eq_sound s t h = (eq_iff s t).0 h

normalize_runs : normalize "  nasd\n" ≡ "NASD"
unfolding normalize
normalize_runs = refl
