-- ===== src/Prelude/Text.antt =====
-- Texts: the character tests of Rust's standard library that the client uses.
use Prim.Native.Nat.{ℕ, ◌+◌}
use Prim.Native.Char.{Char, code}
use Prim.Native.String.{String}
use mathlib.Core.Bool.{Bool, true, false, ◌&&◌, ◌||◌}
use mathlib.Core.List.{List, [], ◌∷◌}
use skill_hive.Prelude.Tests.{leb, nat_eq, if◌then◌else◌}

-- The code points of a text.
abbrev pub codes : String → List ℕ
codes String.[] = []
codes (String.◌∷◌ c s) = code c ∷ codes s

-- `char::is_whitespace`: the Unicode property White_Space.
pub is_whitespace : ℕ → Bool
is_whitespace c =
    (leb 9 c && leb c 13)
    || nat_eq c 32
    || nat_eq c 133
    || nat_eq c 160
    || nat_eq c 5760
    || (leb 8192 c && leb c 8202)
    || nat_eq c 8232
    || nat_eq c 8233
    || nat_eq c 8239
    || nat_eq c 8287
    || nat_eq c 12288

all_whitespace : List ℕ → Bool
all_whitespace [] = true
all_whitespace (c ∷ cs) = is_whitespace c && all_whitespace cs

-- `value.trim().is_empty()`
unfoldable pub is_blank : String → Bool
unfolding is_whitespace all_whitespace
is_blank s = all_whitespace (codes s)

-- `str::trim_start`
unfoldable pub trim_start : String → String
unfolding is_whitespace
trim_start String.[] = String.[]
trim_start (String.◌∷◌ c s) =
    let rest = trim_start s in if is_whitespace (code c) then rest else String.◌∷◌ c s

cons_unless_end : Char → String → String
unfolding is_whitespace
cons_unless_end c String.[] = if is_whitespace (code c) then String.[] else String.◌∷◌ c String.[]
cons_unless_end c (String.◌∷◌ d s) = String.◌∷◌ c (String.◌∷◌ d s)

-- `str::trim_end`
unfoldable pub trim_end : String → String
unfolding cons_unless_end
trim_end String.[] = String.[]
trim_end (String.◌∷◌ c s) = cons_unless_end c (trim_end s)

-- `str::trim`
unfoldable pub trim : String → String
unfolding trim_start trim_end
trim s = trim_end (trim_start s)

-- `u8::to_ascii_lowercase` on a code point.
abbrev ascii_lowercase : ℕ → ℕ
ascii_lowercase c = if leb 65 c && leb c 90 then c + 32 else c

-- `str::eq_ignore_ascii_case`
unfoldable pub eq_ignore_ascii_case : String → String → Bool
eq_ignore_ascii_case String.[] String.[] = true
eq_ignore_ascii_case String.[] (String.◌∷◌ d t) = false
eq_ignore_ascii_case (String.◌∷◌ c s) String.[] = false
eq_ignore_ascii_case (String.◌∷◌ c s) (String.◌∷◌ d t) =
    nat_eq (ascii_lowercase (code c)) (ascii_lowercase (code d)) && eq_ignore_ascii_case s t
