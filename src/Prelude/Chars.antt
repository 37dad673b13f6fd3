-- ===== src/Prelude/Chars.antt =====
-- Functions of `str` and `char` that look at single characters: trimming, ASCII case, splitting,
-- control characters and the bytes of a text.
use mathlib.Core.Path.{◌≡◌}
use mathlib.Core.Bool.{Bool, ◌&&◌, ◌||◌}
use mathlib.Core.Option.{Option, none, some}
use mathlib.Core.List.{List, [], ◌∷◌, ◌++◌, map, reverse}
use Prim.Native.Nat.{ℕ, ◌+◌, ◌-◌, ◌/◌, ◌%◌, ◌<◌}
use native.Mathlib.Omega.{arith}
use route_d.Prelude.Tests.{if◌then◌else◌, ltb, leb}
use route_d.Prelude.Order.{◌==◌, nat_ord}
use route_d.Prelude.Strings.{Text, text_ord}

-- Unicode `White_Space`
abbrev pub is_whitespace : ℕ → Bool
is_whitespace c =
    (leb 9 c && leb c 13)
    || c == 32
    || c == 0x85
    || c == 0xA0
    || c == 0x1680
    || (leb 0x2000 c && leb c 0x200A)
    || c == 0x2028
    || c == 0x2029
    || c == 0x202F
    || c == 0x205F
    || c == 0x3000

trim_start : Text → Text
trim_start [] = []
trim_start (c ∷ s) = let rest = trim_start s in if is_whitespace c then rest else c ∷ s

-- `s.trim()`
unfoldable pub trim : Text → Text
unfolding trim_start
trim s = reverse (trim_start (reverse (trim_start s)))

unfoldable pub lower : ℕ → ℕ
lower c = if leb 65 c && leb c 90 then c + 32 else c

-- `s.to_ascii_lowercase()`
unfoldable pub to_ascii_lowercase : Text → Text
unfolding lower
to_ascii_lowercase = map lower

-- `s.eq_ignore_ascii_case(t)`
unfoldable pub eq_ignore_ascii_case : Text → Text → Bool
unfolding to_ascii_lowercase
eq_ignore_ascii_case s t = to_ascii_lowercase s == to_ascii_lowercase t

-- `char::is_control`: the general category `Cc`
abbrev pub is_control : ℕ → Bool
is_control c = ltb c 32 || (leb 127 c && ltb c 160)

-- bytes of one character, and `s.len()`
abbrev pub utf8_width : ℕ → ℕ
utf8_width c = if ltb c 0x80 then 1 else if ltb c 0x800 then 2 else if ltb c 0x10000 then 3 else 4

unfoldable pub byte_len : Text → ℕ
byte_len [] = 0
byte_len (c ∷ s) = utf8_width c + byte_len s

-- the bytes of one character in UTF-8, and `s.as_bytes()`
abbrev pub utf8_bytes : ℕ → List ℕ
utf8_bytes c =
    if ltb c 0x80
    then c ∷ []
    else if ltb c 0x800
    then (192 + c / 64) ∷ (128 + c % 64) ∷ []
    else if ltb c 0x10000
    then (224 + c / 4096) ∷ (128 + (c / 64) % 64) ∷ (128 + c % 64) ∷ []
    else (240 + c / 262144) ∷ (128 + (c / 4096) % 64) ∷ (128 + (c / 64) % 64) ∷ (128 + c % 64) ∷ []

unfoldable pub as_bytes : Text → List ℕ
as_bytes [] = []
as_bytes (c ∷ s) = utf8_bytes c ++ as_bytes s

-- `s.get(n..)`: from a byte on, if a character begins there
unfoldable pub get_from : ℕ → Text → Option Text
get_from n [] = if n == 0 then some [] else none
get_from n (c ∷ s) =
    let rest = get_from (n - utf8_width c) s in
    if n == 0 then some (c ∷ s) else if ltb n (utf8_width c) then none else rest

-- one more character in front of the first part
abbrev pub onto_first : ℕ → List Text → List Text
onto_first c [] = (c ∷ []) ∷ []
onto_first c (part ∷ parts) = (c ∷ part) ∷ parts

-- `s.split(c)`
unfoldable pub split : ℕ → Text → List Text
split sep [] = [] ∷ []
split sep (c ∷ s) = let parts = split sep s in if c == sep then [] ∷ parts else onto_first c parts

-- A character that equals an ASCII character but for case is one byte long.
pub lower_width : (p c : ℕ) → p < 128 → lower p ≡ lower c → utf8_width c ≡ 1
unfolding lower
lower_width p c h e = ground arith

-- The byte position after a character of one byte.
pub get_from-cons :
    (n c : ℕ) (s : Text) → utf8_width c ≡ 1 → get_from (1 + n) (c ∷ s) ≡ get_from n s
unfolding get_from
get_from-cons n c s e = let less : (1 + n) - 1 ≡ n = omega arith in rw (e, less) (ground arith)

pub lower_idem : (c : ℕ) → lower (lower c) ≡ lower c
unfolding lower
lower_idem c = ground arith
