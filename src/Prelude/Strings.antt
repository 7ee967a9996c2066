-- ===== src/Prelude/Strings.antt =====
-- Texts as lists of code units, with the methods of `String.prototype` that the source calls.
use Prim.Native.Nat.{ℕ, ◌+◌, ◌-◌}
use Prim.Native.Char.{code}
use Prim.Native.String.{String}
use mathlib.Core.Bool.{Bool, true, false, ◌&&◌, ◌||◌}
use mathlib.Core.List.{List, [], ◌∷◌, ◌++◌, map, reverse}
use mathlib.Core.Path.{◌≡◌, refl}
use native.Mathlib.Omega.{arith}
use tomafix_backend.Prelude.Tests.{leb, ◌==◌, nat_eq, if◌then◌else◌}

abbrev pub Text : Type 0
Text = List ℕ

-- The code units of a literal of the source.
abbrev pub codes : String → Text
codes String.[] = []
codes (String.◌∷◌ c s) = code c ∷ codes s

-- White space and line terminators of ECMAScript.
abbrev is_space : ℕ → Bool
is_space c =
    (leb 9 c && leb c 13)
    || c == 32
    || c == 160
    || c == 0x1680
    || (leb 0x2000 c && leb c 0x200a)
    || c == 0x2028
    || c == 0x2029
    || c == 0x202f
    || c == 0x205f
    || c == 0x3000
    || c == 0xfeff

trim_start : Text → Text
trim_start [] = []
trim_start (c ∷ s) = let rest = trim_start s in if is_space c then rest else c ∷ s

unfoldable pub trim : Text → Text
unfolding trim_start
trim s = reverse (trim_start (reverse (trim_start s)))

abbrev lower_unit : ℕ → ℕ
lower_unit c = if leb b'A' c && leb c b'Z' then c + 32 else c

-- `toLowerCase` on ASCII; other units are left as they are.
unfoldable pub lower : Text → Text
lower s = map lower_unit s

abbrev upper_unit : ℕ → ℕ
upper_unit c = if leb b'a' c && leb c b'z' then c - 32 else c

-- `toUpperCase`, likewise
unfoldable pub upper : Text → Text
upper s = map upper_unit s

abbrev pub is_empty : Text → Bool
is_empty [] = true
is_empty (_ ∷ _) = false

unfoldable pub starts_with : Text → Text → Bool
starts_with s [] = true
starts_with [] (_ ∷ _) = false
starts_with (c ∷ s) (d ∷ p) = c == d && starts_with s p

push_unit : ℕ → List Text → List Text
push_unit c [] = (c ∷ []) ∷ []
push_unit c (part ∷ parts) = (c ∷ part) ∷ parts

-- `split` at one unit
unfoldable pub split_at : ℕ → Text → List Text
unfolding push_unit
split_at d [] = [] ∷ []
split_at d (c ∷ s) = let rest = split_at d s in if c == d then [] ∷ rest else push_unit c rest

-- A text that the separator does not occur in is one piece.
abbrev pub has_unit : ℕ → Text → Bool
has_unit d [] = false
has_unit d (c ∷ s) = c == d || has_unit d s

split_at-alone : (d : ℕ) (s : Text) → has_unit d s ≡ false → split_at d s ≡ s ∷ []
unfolding split_at push_unit
split_at-alone d [] h = refl
split_at-alone d (c ∷ s) h = ground (arith, h, split_at-alone d s)

pub split_at-two :
    (d : ℕ) (s t : Text)
    → has_unit d s ≡ false
    → has_unit d t ≡ false
    → split_at d (s ++ d ∷ t) ≡ s ∷ t ∷ []
unfolding split_at push_unit
split_at-two d [] t h k = ground (arith, split_at-alone d t k, nat_eq.same_iff d d)
split_at-two d (c ∷ s) t h k = ground (arith, h, split_at-two d s t)
