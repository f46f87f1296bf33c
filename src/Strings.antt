-- ===== src/Strings.antt =====
-- The functions of Go's packages `strings` and `strconv` that the program calls, over the
-- characters of a text.
pub mod Laws
use Prim.Native.Char.{Char, code}
use Prim.Native.String.{count}
use neon_oss.Base.{
  ℕ, zero, suc, ◌+◌, ◌-◌, ◌/◌, ◌%◌, Bool, true, false, ◌&&◌, ◌||◌, String, ◌==◌, ltb, leb, str_eq,
  if◌then◌else◌, ℤ, pos, negsuc, List, [], ◌∷◌,
}

infixl 65 ◌+++◌
-- Concatenation.
abbrev pub ◌+++◌ : String → String → String
s +++ t = Prim.Native.String.◌++◌ s t

-- `strings.HasPrefix(s, prefix)`
unfoldable pub has_prefix : String → String → Bool
has_prefix s String.[] = true
has_prefix String.[] (String.◌∷◌ p ps) = false
has_prefix (String.◌∷◌ c s) (String.◌∷◌ p ps) = code c == code p && has_prefix s ps

-- `strings.Contains(s, part)`
unfoldable pub contains : String → String → Bool
unfolding has_prefix
contains String.[] part = has_prefix "" part
contains (String.◌∷◌ c s) part = has_prefix (String.◌∷◌ c s) part || contains s part

-- The characters still to be passed over are counted down in `skip`.
replace_from : String → String → ℕ → String → String
replace_from old new skip String.[] = ""
replace_from old new (suc skip) (String.◌∷◌ c s) = replace_from old new skip s
replace_from old new zero (String.◌∷◌ c s) =
    let passed = replace_from old new (count old - 1) s in
    let kept = replace_from old new zero s in
    if has_prefix (String.◌∷◌ c s) old then new +++ passed else String.◌∷◌ c kept

-- `strings.ReplaceAll(s, old, new)` for a text `old` that is not empty.
unfoldable pub replace_all : String → String → String → String
unfolding replace_from has_prefix
replace_all s old new = replace_from old new zero s

-- The character in `to` at the place of a character in `from`, or the character itself.
mapped : String → String → Char → Char
mapped String.[] to c = c
mapped (String.◌∷◌ f from) String.[] c = c
mapped (String.◌∷◌ f from) (String.◌∷◌ t to) c =
    let rest = mapped from to c in if code f == code c then t else rest

abbrev lower_case : String
lower_case = "abcdefghijklmnopqrstuvwxyz"

abbrev upper_case : String
upper_case = "ABCDEFGHIJKLMNOPQRSTUVWXYZ"

has_code : ℕ → String → Bool
has_code n String.[] = false
has_code n (String.◌∷◌ c s) = code c == n || has_code n s

-- Whether every character may stand in the name of a header field.
is_token : String → Bool
is_token String.[] = true
is_token (String.◌∷◌ c s) =
    (has_code (code c) lower_case
      || has_code (code c) upper_case
      || has_code (code c) "0123456789!#$%&'*+-.^_`|~")
    && is_token s

-- The first letter, and each after a dash, in upper case, and the others in lower case.
cased : Bool → String → String
cased upper String.[] = ""
cased upper (String.◌∷◌ c s) =
    String.◌∷◌ (if upper then mapped lower_case upper_case c else mapped upper_case lower_case c)
      (cased (code c == b'-') s)

-- `textproto.CanonicalMIMEHeaderKey(name)`
unfoldable pub canonical_key : String → String
unfolding mapped has_code is_token cased
canonical_key name = if is_token name then cased true name else name

digit : ℕ → String
digit n =
    if n == 0
    then "0"
    else if n == 1
    then "1"
    else if n == 2
    then "2"
    else if n == 3
    then "3"
    else if n == 4
    then "4"
    else if n == 5
    then "5"
    else if n == 6
    then "6"
    else if n == 7
    then "7"
    else if n == 8
    then "8"
    else "9"

format_from : ℕ → ℕ → String
format_from zero n = ""
format_from (suc fuel) n =
    let rest = format_from fuel (n / 10) +++ digit (n % 10) in if ltb n 10 then digit n else rest

-- `strconv.FormatInt(n, 10)`: a number has no more digits than its value has units.
unfoldable pub format_int : ℤ → String
unfolding format_from digit
format_int (pos n) = format_from (suc n) n
format_int (negsuc n) = "-" +++ format_from (suc (suc n)) (suc n)

-- `strconv.FormatBool`
abbrev pub format_bool : Bool → String
format_bool true = "true"
format_bool false = "false"
