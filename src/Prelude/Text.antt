-- ===== src/Prelude/Text.antt =====
-- The string functions of JavaScript that the program uses, on texts of ASCII characters.
use Prim.Native.Nat.{ℕ, zero, suc, ◌+◌, ◌-◌, ◌*◌, ◌/◌, ◌%◌}
use Prim.Native.Char.{Char, code}
use Prim.Native.String
use Prim.Native.String.{String, [], ◌∷◌, count}
use mathlib.Core.Path.{◌≡◌, refl}
use mathlib.Core.Bool.{Bool, true, false, ◌&&◌, ◌||◌}
use mathlib.Core.List.{List}
use mathlib.Core.Option.{Option, none, some}
use text.Mathlib.Text.{◌==◌}
use vdt_provisioning_service.Prelude.Tests.{leb, ltb, eqb, if◌then◌else◌}

abbrev pub append : String → String → String
append s t = String.◌++◌ s t

unfoldable pub is_space : ℕ → Bool
is_space c = (leb 9 c && leb c 13) || (eqb c 32 || eqb c 160)

trim_start : String → String
unfolding is_space
trim_start [] = []
trim_start (c ∷ s) = let rest = trim_start s in if is_space (code c) then rest else c ∷ s

trim_end : String → String
unfolding is_space
trim_end [] = []
trim_end (c ∷ s) = let rest = trim_end s in if is_space (code c) && rest == "" then [] else c ∷ rest

-- `s.trim()`
unfoldable pub trim : String → String
unfolding trim_start trim_end
trim s = trim_end (trim_start s)

-- `s.substring(n)`
unfoldable pub substring : ℕ → String → String
substring zero s = s
substring (suc n) [] = []
substring (suc n) (c ∷ s) = substring n s

-- `s.substring(0, n)`
unfoldable pub take : ℕ → String → String
take zero s = []
take (suc n) [] = []
take (suc n) (c ∷ s) = c ∷ take n s

abbrev pub prepend : Char → List String → List String
prepend c List.[] = List.◌∷◌ (c ∷ []) List.[]
prepend c (List.◌∷◌ part parts) = List.◌∷◌ (c ∷ part) parts

-- `s.split(sep)` at a one-character separator
unfoldable pub split : ℕ → String → List String
split sep [] = List.◌∷◌ "" List.[]
split sep (c ∷ s) =
    let rest = split sep s in if eqb (code c) sep then List.◌∷◌ "" rest else prepend c rest

-- `s.replace(/x/g, t)` for a one-character pattern
unfoldable pub replace_all : ℕ → String → String → String
replace_all x t [] = []
replace_all x t (c ∷ s) =
    let rest = replace_all x t s in if eqb (code c) x then append t rest else c ∷ rest

unfoldable pub digit : ℕ → Bool
digit c = leb b'0' c && leb c b'9'

abbrev pub every : (ℕ → Bool) → String → Bool
every p [] = true
every p (c ∷ s) = p (code c) && every p s

octet : String → Bool
unfolding digit
octet s = every digit s && (leb 1 (count s) && leb (count s) 3)

octets : List String → Bool
unfolding octet
octets (List.◌∷◌ a (List.◌∷◌ b (List.◌∷◌ c (List.◌∷◌ d List.[])))) =
    (octet a && octet b) && (octet c && octet d)
octets _ = false

-- `/^(?:[0-9]{1,3}\.){3}[0-9]{1,3}$/.test(s)`
unfoldable pub is_ipv4 : String → Bool
unfolding octets split
is_ipv4 s = octets (split b'.' s)

base64 : ℕ → Bool
unfolding digit
base64 c =
    ((leb b'A' c && leb c b'Z') || (leb b'a' c && leb c b'z'))
    || (digit c || (eqb c b'+' || eqb c b'/'))

key_of_length : ℕ → String → Bool
unfolding base64
key_of_length zero s = s == "="
key_of_length (suc n) [] = false
key_of_length (suc n) (c ∷ s) = base64 (code c) && key_of_length n s

-- `/^[A-Za-z0-9+/]{43}=$/.test(s)`
unfoldable pub is_wg_key : String → Bool
unfolding key_of_length
is_wg_key s = key_of_length 43 s

abbrev digit_text : ℕ → String
digit_text n =
    if eqb n 0
    then "0"
    else if eqb n 1
    then "1"
    else if eqb n 2
    then "2"
    else if eqb n 3
    then "3"
    else if eqb n 4
    then "4"
    else if eqb n 5
    then "5"
    else if eqb n 6
    then "6"
    else if eqb n 7
    then "7"
    else if eqb n 8
    then "8"
    else "9"

digits : ℕ → ℕ → String
digits zero n = digit_text n
digits (suc fuel) n =
    let more = append (digits fuel (n / 10)) (digit_text (n % 10)) in
    if ltb n 10 then digit_text n else more

-- `${n}`: a number has at most as many digits as its value, so `n` is fuel enough.
unfoldable pub show : ℕ → String
unfolding digits
show n = digits n n

parse_digits : ℕ → String → ℕ
unfolding digit
parse_digits acc [] = acc
parse_digits acc (c ∷ s) =
    let rest = parse_digits (acc * 10 + (code c - b'0')) s in if digit (code c) then rest else acc

parse_unsigned : String → Option ℕ
unfolding parse_digits
parse_unsigned [] = none
parse_unsigned (c ∷ s) = if digit (code c) then some (parse_digits 0 (c ∷ s)) else none

-- `parseInt(s, 10)` on a text without a sign: the digits it begins with, `none` for NaN
unfoldable pub parse_int : String → Option ℕ
unfolding parse_unsigned trim_start
parse_int s = parse_unsigned (trim_start s)

-- `s.endsWith(x)` for one character
unfoldable pub ends_with : ℕ → String → Bool
ends_with x [] = false
ends_with x (c ∷ s) = let rest = ends_with x s in if s == "" then eqb (code c) x else rest

-- `s.startsWith(t)`
unfoldable pub starts_with : String → String → Bool
starts_with [] s = true
starts_with (c ∷ t) [] = false
starts_with (c ∷ t) (d ∷ s) = eqb (code c) (code d) && starts_with t s

text_tests :
    (trim "  a b \n" ≡ "a b")
    × (is_ipv4 "10.13.37.254" ≡ true)
    × (is_ipv4 "10.13.37" ≡ false)
    × (show 254 ≡ "254")
    × (parse_int "170x" ≡ some 170)
    × (ends_with b'=' "ab=" ≡ true)
    × (replace_all b'-' "." "10-13-37-5" ≡ "10.13.37.5")
    × (substring 7 "Bearer x" ≡ "x")
    × (take 3 "FACTORY" ≡ "FAC")
    × (is_wg_key "MANUAL_VPN" ≡ false)
    × (starts_with "10." "10.13" ≡ true)
    × (starts_with "10.13" "10." ≡ false)
unfolding trim is_ipv4 show parse_int ends_with replace_all substring take is_wg_key starts_with
text_tests = (refl, refl, refl, refl, refl, refl, refl, refl, refl, refl, refl, refl)
