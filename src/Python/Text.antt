-- ===== src/Python/Text.antt =====
-- `str.strip`, `str(int)` and truth of a text, as Python defines them.
pub mod Strip
use Prim.Native.Char.{code}
use Prim.Native.String
use polaris_lab.Base.{
  ℕ, zero, suc, ◌+◌, ◌/◌, ◌%◌, String, ◌≡◌, refl, Bool, ◌&&◌, ◌||◌, ltb, leb, ◌==◌, if◌then◌else◌,
  str_eq,
}
use polaris_lab.Base.Int.{ℤ, pos, negsuc}

-- `c.isspace()` by the code point.
is_space : ℕ → Bool
is_space c =
    (leb 9 c && leb c 13)
    || (leb 28 c && leb c 32)
    || c == 133
    || c == 160
    || c == 5760
    || (leb 8192 c && leb c 8202)
    || c == 8232
    || c == 8233
    || c == 8239
    || c == 8287
    || c == 12288

lstrip : String → String
lstrip String.[] = ""
lstrip (String.◌∷◌ c s) = if is_space (code c) then lstrip s else String.◌∷◌ c s

rstrip : String → String
rstrip String.[] = ""
rstrip (String.◌∷◌ c s) =
    let rest = rstrip s in if is_space (code c) && str_eq rest "" then "" else String.◌∷◌ c rest

-- `s.strip()`
unfoldable pub strip : String → String
unfolding is_space lstrip rstrip
strip s = rstrip (lstrip s)

-- `not s` for a text.
abbrev pub is_empty : String → Bool
is_empty s = str_eq s ""

-- `len(s)`
abbrev pub text_length : String → ℕ
text_length String.[] = 0
text_length (String.◌∷◌ c s) = suc (text_length s)

digit : ℕ → String
digit n =
    if n == 0
    then "0"
    else if n == 1
    then "1"
    else if n == 2
    then "2"
    else if n == 3
    then "3"
    else if n == 4
    then "4"
    else if n == 5
    then "5"
    else if n == 6
    then "6"
    else if n == 7
    then "7"
    else if n == 8
    then "8"
    else "9"

-- The decimal digits of `n`, before the text `rest`; `n + 1` rounds are enough.
digits : ℕ → ℕ → String → String
digits zero n rest = rest
digits (suc fuel) n rest =
    let text = String.◌++◌ (digit (n % 10)) rest in
    let more = digits fuel (n / 10) text in if ltb n 10 then text else more

-- `str(n)` for an int.
unfoldable pub str_int : ℤ → String
unfolding digit digits
str_int (pos n) = digits (n + 1) n ""
str_int (negsuc n) = String.◌++◌ "-" (digits (n + 2) (n + 1) "")

strip_runs : strip "  a b \t" ≡ "a b"
unfolding strip
strip_runs = refl

str_int_runs : str_int (negsuc 1204) ≡ "-1205"
unfolding str_int
str_int_runs = refl
