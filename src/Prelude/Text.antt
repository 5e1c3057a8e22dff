-- ===== src/Prelude/Text.antt =====
-- Texts as lists of code points, and what the code takes from Go's `strings` package.
-- A Go string is bytes: for ASCII texts the two agree, and `byte_len` counts the bytes of UTF-8.
pub mod Laws
use Prim.Native.Nat.{ℕ, zero, suc, ◌+◌, ◌-◌, ◌≤◌}
use Prim.Native.Char.{code}
use Prim.Native.String.{String}
use mathlib.Core.Path.{◌≡◌, refl, ap}
use mathlib.Core.Logic.{◌↔◌}
use mathlib.Core.Bool.{Bool, true, false, ◌&&◌, ◌||◌}
use mathlib.Core.Option.{Option, none, some}
use mathlib.Core.List.{List, [], ◌∷◌, ◌++◌, map, reverse}
use native.Mathlib.Omega.{arith}
use pwdtt.Prelude.Tests.{ltb, leb, ◌==◌, if◌then◌else◌}
use pwdtt.Prelude.Lists.{length, drop}

abbrev pub Text : Type 0
Text = List ℕ

abbrev pub codes : String → Text
codes String.[] = []
codes (String.◌∷◌ c s) = code c ∷ codes s

infix 50 ◌≗◌
unfoldable pub ◌≗◌ : Text → Text → Bool
[] ≗ [] = true
(x ∷ xs) ≗ (y ∷ ys) = x == y && xs ≗ ys
_ ≗ _ = false

pub ≗_iff : (a b : Text) → ((a ≗ b) ≡ true) ↔ (a ≡ b)
unfolding ◌≗◌
≗_iff [] [] = ground arith
≗_iff [] (y ∷ ys) = ground arith
≗_iff (x ∷ xs) [] = ground arith
≗_iff (x ∷ xs) (y ∷ ys) = ground (arith, ≗_iff xs ys)

pub ≗_refl : (a : Text) → (a ≗ a) ≡ true
≗_refl a = (≗_iff a a).1 refl

-- unicode.IsSpace
unfoldable pub is_space : ℕ → Bool
is_space c =
    leb 9 c && leb c 13
    || c == 0x20
    || c == 0x85
    || c == 0xA0
    || c == 0x1680
    || leb 0x2000 c && leb c 0x200A
    || c == 0x2028
    || c == 0x2029
    || c == 0x202F
    || c == 0x205F
    || c == 0x3000

-- Drops the characters of a class from the front, and from both ends (strings.Trim).
unfoldable pub trim_left_by : (ℕ → Bool) → Text → Text
trim_left_by p [] = []
trim_left_by p (c ∷ s) = let rest = trim_left_by p s in if p c then rest else c ∷ s

unfoldable pub trim_by : (ℕ → Bool) → Text → Text
unfolding trim_left_by
trim_by p s = reverse (trim_left_by p (reverse (trim_left_by p s)))

-- strings.TrimSpace
unfoldable pub trim_space : Text → Text
unfolding trim_by is_space
trim_space s = trim_by is_space s

unfoldable pub has_prefix : Text → Text → Bool
has_prefix [] s = true
has_prefix (p ∷ ps) [] = false
has_prefix (p ∷ ps) (c ∷ s) = p == c && has_prefix ps s

-- strings.Index: where the pattern first stands.
unfoldable pub index_of : Text → Text → Option ℕ
unfolding has_prefix
index_of pat [] = if has_prefix pat [] then some 0 else none
index_of pat (c ∷ s) =
    let later = index_of pat s in
    if has_prefix pat (c ∷ s) then some 0 else elim later [ none ↦ none | some i ↦ some (suc i) ]

-- s[:i] at the first character of a class, or all of s.
unfoldable pub before : (ℕ → Bool) → Text → Text
before p [] = []
before p (c ∷ s) = let rest = before p s in if p c then [] else c ∷ rest

unfoldable pub any_char : (ℕ → Bool) → Text → Bool
any_char p [] = false
any_char p (c ∷ s) = p c || any_char p s

unfoldable pub all_chars : (ℕ → Bool) → Text → Bool
all_chars p [] = true
all_chars p (c ∷ s) = p c && all_chars p s

-- Lower case as far as the code's searches for ASCII patterns can see it: two characters beyond
-- ASCII have an ASCII lower case.
unfoldable pub to_lower : ℕ → ℕ
to_lower c =
    if leb b'A' c && leb c b'Z'
    then c + 32
    else if c == 0x130
    then b'i'
    else if c == 0x212A
    then b'k'
    else c

-- Go's order of strings.
unfoldable pub less_text : Text → Text → Bool
less_text [] [] = false
less_text [] (y ∷ ys) = true
less_text (x ∷ xs) [] = false
less_text (x ∷ xs) (y ∷ ys) = ltb x y || x == y && less_text xs ys

-- len(s) of the UTF-8 encoding.
unfoldable pub byte_len : Text → ℕ
byte_len [] = 0
byte_len (c ∷ s) =
    (if ltb c 0x80 then 1 else if ltb c 0x800 then 2 else if ltb c 0x10000 then 3 else 4)
    + byte_len s
