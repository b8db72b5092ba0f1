-- ===== src/Prelude/Text.antt =====
-- Python's `str` methods that the program calls: strip, lower, upper, isdigit, int, startswith,
-- endswith. The case methods map the ASCII letters and leave every other character as it is.
use Prim.Native.Nat.{zero, suc, ◌/◌, ◌%◌, ◌+◌, ◌-◌, ◌*◌, ℕ}
use Prim.Native.String.{slice, ◌++◌ as append, String}
use poundcake.Prelude.Tests.{ltb, leb, nat_eq, if◌then◌else◌}
use mathlib.Core.Option.{Option, none, some}
use text.Mathlib.Text.{◌==◌ as str_eq}
use Prim.Native.Char.{Char, code}
use mathlib.Core.Bool.{Bool, ◌&&◌, ◌||◌}

-- The character that stands in `to` where `c` stands in `from`.
map_char : Char → String → String → Char
map_char c String.[] to = c
map_char c (String.◌∷◌ a from) String.[] = c
map_char c (String.◌∷◌ a from) (String.◌∷◌ b to) =
    let rest = map_char c from to in if nat_eq (code c) (code a) then b else rest

map_chars : String → String → String → String
map_chars String.[] from to = String.[]
map_chars (String.◌∷◌ c s) from to = String.◌∷◌ (map_char c from to) (map_chars s from to)

abbrev uppers : String
uppers = "ABCDEFGHIJKLMNOPQRSTUVWXYZ"

abbrev lowers : String
lowers = "abcdefghijklmnopqrstuvwxyz"

unfoldable pub lower : String → String
unfolding map_char map_chars
lower s = map_chars s uppers lowers

unfoldable pub upper : String → String
unfolding map_char map_chars
upper s = map_chars s lowers uppers

-- the ASCII white space of `str.strip`
is_space : ℕ → Bool
is_space c = nat_eq c 32 || leb 9 c && leb c 13 || leb 28 c && leb c 31

lstrip : String → String
lstrip String.[] = String.[]
lstrip (String.◌∷◌ c s) = let rest = lstrip s in if is_space (code c) then rest else String.◌∷◌ c s

-- A character is kept if it is no space, or if something is kept after it.
cons_kept : Char → String → String
cons_kept c String.[] = if is_space (code c) then String.[] else String.◌∷◌ c String.[]
cons_kept c (String.◌∷◌ d s) = String.◌∷◌ c (String.◌∷◌ d s)

rstrip : String → String
rstrip String.[] = String.[]
rstrip (String.◌∷◌ c s) = cons_kept c (rstrip s)

unfoldable pub strip : String → String
unfolding is_space lstrip cons_kept rstrip
strip s = rstrip (lstrip s)

-- `s.removeprefix(p)` where `s` starts with `p`
unfoldable pub strip_prefix : String → String → Option String
strip_prefix String.[] s = some s
strip_prefix (String.◌∷◌ a p) String.[] = none
strip_prefix (String.◌∷◌ a p) (String.◌∷◌ c s) =
    let rest = strip_prefix p s in if nat_eq (code a) (code c) then rest else none

-- `s.split(sep, 1)[0]` for a separator of one character
unfoldable pub before_char : ℕ → String → String
before_char sep String.[] = String.[]
before_char sep (String.◌∷◌ c s) =
    let rest = before_char sep s in if nat_eq (code c) sep then String.[] else String.◌∷◌ c rest

is_digit : ℕ → Bool
is_digit c = leb 48 c && leb c 57

digits_from : ℕ → String → Option ℕ
digits_from acc String.[] = some acc
digits_from acc (String.◌∷◌ c s) =
    let rest = digits_from (acc * 10 + (code c - 48)) s in if is_digit (code c) then rest else none

-- `int(s)` where `s.isdigit()`, for the ASCII digits
unfoldable pub parse_digits : String → Option ℕ
unfolding is_digit digits_from
parse_digits String.[] = none
parse_digits (String.◌∷◌ c s) = digits_from 0 (String.◌∷◌ c s)

-- `s.endswith(t)`
unfoldable pub ends_with : String → String → Bool
ends_with String.[] t = str_eq String.[] t
ends_with (String.◌∷◌ c s) t = str_eq (String.◌∷◌ c s) t || ends_with s t

digit : ℕ → String
digit d = slice "0123456789" d (d + 1)

show_fuel : ℕ → ℕ → String
show_fuel zero n = String.[]
show_fuel (suc f) n =
    let front = show_fuel f (n / 10) in if ltb n 10 then digit n else append front (digit (n % 10))

-- `str(n)`: a number has fewer digits than n + 1
unfoldable pub show_nat : ℕ → String
unfolding digit show_fuel
show_nat n = show_fuel (n + 1) n

-- `s or ""`
unfoldable pub text_or_empty : Option String → String
text_or_empty none = ""
text_or_empty (some s) = s

-- `s.replace(".", "_")`
unfoldable pub replace_dots : String → String
unfolding map_char map_chars
replace_dots s = map_chars s "." "_"
