-- ===== src/Base/Text.antt =====
-- What the source uses of Go's strings, unicode and fmt packages, over the native texts.
use Prim.Native.Nat.{ℕ, zero, suc, ◌-◌, ◌/◌, ◌%◌}
use Prim.Native.Char.{Char, code}
use Prim.Native.String.{String, ◌++◌}
use text.Mathlib.Text.{starts_with}
use mathlib.Core.Bool.{Bool, ◌&&◌, ◌||◌}
use mathlib.Core.List.{List, [], ◌∷◌}
use codex_a2a.Base.Tests.{◌==◌, ltb, leb, eqb, if◌then◌else◌}

-- unicode.IsSpace
unfoldable pub is_space : ℕ → Bool
is_space c =
    (leb 9 c && leb c 13)
    || eqb c 0x20
    || eqb c 0x85
    || eqb c 0xa0
    || eqb c 0x1680
    || (leb 0x2000 c && leb c 0x200a)
    || eqb c 0x2028
    || eqb c 0x2029
    || eqb c 0x202f
    || eqb c 0x205f
    || eqb c 0x3000

unfoldable pub trim_left_space : String → String
unfolding is_space
trim_left_space String.[] = ""
trim_left_space (String.◌∷◌ c s) =
    let rest = trim_left_space s in if is_space (code c) then rest else String.◌∷◌ c s

-- One character in front of an already trimmed text.
abbrev cons_trimmed : Char → String → String
cons_trimmed c String.[] = if is_space (code c) then "" else String.◌∷◌ c ""
cons_trimmed c (String.◌∷◌ d s) = String.◌∷◌ c (String.◌∷◌ d s)

unfoldable pub trim_right_space : String → String
unfolding is_space
trim_right_space String.[] = ""
trim_right_space (String.◌∷◌ c s) = cons_trimmed c (trim_right_space s)

-- strings.TrimSpace
unfoldable pub trim_space : String → String
unfolding trim_left_space trim_right_space
trim_space s = trim_right_space (trim_left_space s)

-- strings.Join
unfoldable pub join : String → List String → String
join sep [] = ""
join sep (s ∷ []) = s
join sep (s ∷ t ∷ rest) = s ++ (sep ++ join sep (t ∷ rest))

-- strings.TrimRight with a cutset of one character, here "/".
abbrev cut_right : String → Char → String → String
cut_right cutset c String.[] = if String.◌∷◌ c "" == cutset then "" else String.◌∷◌ c ""
cut_right cutset c (String.◌∷◌ d s) = String.◌∷◌ c (String.◌∷◌ d s)

unfoldable pub trim_right : String → String → String
trim_right cutset String.[] = ""
trim_right cutset (String.◌∷◌ c s) = cut_right cutset c (trim_right cutset s)

abbrev digit : ℕ → String
digit zero = "0"
digit (suc zero) = "1"
digit (suc (suc zero)) = "2"
digit (suc (suc (suc zero))) = "3"
digit (suc (suc (suc (suc zero)))) = "4"
digit (suc (suc (suc (suc (suc zero))))) = "5"
digit (suc (suc (suc (suc (suc (suc zero)))))) = "6"
digit (suc (suc (suc (suc (suc (suc (suc zero))))))) = "7"
digit (suc (suc (suc (suc (suc (suc (suc (suc zero)))))))) = "8"
digit _ = "9"

-- A number below ten for each unit of fuel is enough: `n` has at most `n + 1` digits.
decimal_fuel : ℕ → ℕ → String
decimal_fuel zero n = ""
decimal_fuel (suc fuel) n =
    let front = decimal_fuel fuel (n / 10) in if ltb n 10 then digit n else front ++ digit (n % 10)

-- The verb %d.
unfoldable pub decimal : ℕ → String
unfolding decimal_fuel
decimal n = decimal_fuel (suc n) n

abbrev hex_digit : ℕ → String
hex_digit n =
    if ltb n 10
    then digit n
    else if eqb n 10
    then "a"
    else if eqb n 11
    then "b"
    else if eqb n 12
    then "c"
    else if eqb n 13
    then "d"
    else if eqb n 14
    then "e"
    else "f"

-- strconv.Quote on one character; those from 0x80 on are taken as printable.
quote_char : Char → String
quote_char c =
    let n = code c in
    if eqb n 0x22
    then "\\\""
    else if eqb n 0x5c
    then "\\\\"
    else if eqb n 7
    then "\\a"
    else if eqb n 8
    then "\\b"
    else if eqb n 12
    then "\\f"
    else if eqb n 10
    then "\\n"
    else if eqb n 13
    then "\\r"
    else if eqb n 9
    then "\\t"
    else if eqb n 11
    then "\\v"
    else if ltb n 0x20 || eqb n 0x7f
    then "\\x" ++ (hex_digit (n / 16) ++ hex_digit (n % 16))
    else String.◌∷◌ c ""

quote_chars : String → String
unfolding quote_char
quote_chars String.[] = "\""
quote_chars (String.◌∷◌ c s) = quote_char c ++ quote_chars s

-- The verb %q.
unfoldable pub quote : String → String
unfolding quote_chars
quote s = "\"" ++ quote_chars s

lower_letter : ℕ → String
lower_letter n =
    let i = n - b'A' in
    if eqb i 0
    then "a"
    else if eqb i 1
    then "b"
    else if eqb i 2
    then "c"
    else if eqb i 3
    then "d"
    else if eqb i 4
    then "e"
    else if eqb i 5
    then "f"
    else if eqb i 6
    then "g"
    else if eqb i 7
    then "h"
    else if eqb i 8
    then "i"
    else if eqb i 9
    then "j"
    else if eqb i 10
    then "k"
    else if eqb i 11
    then "l"
    else if eqb i 12
    then "m"
    else if eqb i 13
    then "n"
    else if eqb i 14
    then "o"
    else if eqb i 15
    then "p"
    else if eqb i 16
    then "q"
    else if eqb i 17
    then "r"
    else if eqb i 18
    then "s"
    else if eqb i 19
    then "t"
    else if eqb i 20
    then "u"
    else if eqb i 21
    then "v"
    else if eqb i 22
    then "w"
    else if eqb i 23
    then "x"
    else if eqb i 24
    then "y"
    else "z"

-- One character of strings.ToLower. Outside ASCII only the two characters whose lower case is an
-- ASCII letter matter to a comparison with an ASCII word; the others are left as they are.
lower_char : Char → String
lower_char c =
    let n = code c in
    if leb b'A' n && leb n b'Z'
    then lower_letter n
    else if eqb n 0x130
    then "i"
    else if eqb n 0x212a
    then "k"
    else String.◌∷◌ c ""

unfoldable pub to_lower : String → String
unfolding lower_char lower_letter
to_lower String.[] = ""
to_lower (String.◌∷◌ c s) = lower_char c ++ to_lower s

-- strings.HasPrefix(text, prefix)
unfoldable pub has_prefix : String → String → Bool
has_prefix prefix text = starts_with text prefix

-- strings.TrimPrefix, where the text starts with the prefix: the characters of both go together.
unfoldable pub drop_text : String → String → String
drop_text String.[] text = text
drop_text (String.◌∷◌ c prefix) String.[] = ""
drop_text (String.◌∷◌ c prefix) (String.◌∷◌ d text) = drop_text prefix text

-- strings.Split with a separator of one character: at least one part.
abbrev in_first : Char → List String → List String
in_first c [] = String.◌∷◌ c "" ∷ []
in_first c (part ∷ parts) = String.◌∷◌ c part ∷ parts

unfoldable pub split : String → String → List String
split sep String.[] = "" ∷ []
split sep (String.◌∷◌ c s) =
    let rest = split sep s in if String.◌∷◌ c "" == sep then "" ∷ rest else in_first c rest
