-- ===== src/Text/Token.antt =====
-- What the sources use of string.h, stdlib.h and stdio.h on strings: strtok, atoi, and "%d".
use kv_storage_service.Common.{
  ℕ, zero, suc, ◌+◌, ◌-◌, ◌*◌, ◌/◌, ◌%◌, ℤ, pos, negsuc, sub_ℕ, Option, none, some, [], ◌∷◌, ◌++◌,
  Bool, false, ◌||◌, ◌&&◌, ◌==◌, leb, ltb, if◌then◌else◌,
}
use kv_storage_service.Machine.{M, to_int}
use kv_storage_service.Text.{Str}

-- whether a character is one of a set
abbrev pub is_one_of : Str → ℕ → Bool
is_one_of [] c = false
is_one_of (d ∷ ds) c = c == d || is_one_of ds c

unfoldable pub skip : Str → Str → Str
skip delims [] = []
skip delims (c ∷ cs) = let rest = skip delims cs in if is_one_of delims c then rest else c ∷ cs

-- The characters up to the next delimiter, and those behind it.
unfoldable pub token : Str → Str → Str
token delims [] = []
token delims (c ∷ cs) = if is_one_of delims c then [] else c ∷ token delims cs

unfoldable pub behind : Str → Str → Str
behind delims [] = []
behind delims (c ∷ cs) = let rest = behind delims cs in if is_one_of delims c then cs else rest

abbrev pub split_token : Str → Str → Option Str × Str
split_token delims [] = (none, [])
split_token delims (c ∷ cs) = (some (token delims (c ∷ cs)), behind delims (c ∷ cs))

-- `strtok`: the token, or NULL, and where the next call begins.
unfoldable pub strtok : Str → Str → Option Str × Str
strtok delims s = split_token delims (skip delims s)

abbrev pub is_digit : ℕ → Bool
is_digit c = leb 48 c && leb c 57

-- The number that the digits at the front of a string go on with.
unfoldable pub digits : ℕ → Str → ℕ
digits n [] = n
digits n (c ∷ cs) = let rest = digits (n * 10 + (c - 48)) cs in if is_digit c then rest else n

-- An optional sign and digits.
unfoldable pub signed : Str → ℤ
signed [] = pos 0
signed (c ∷ cs) =
    if c == 45
    then sub_ℕ 0 (digits 0 cs)
    else if c == 43
    then pos (digits 0 cs)
    else pos (digits 0 (c ∷ cs))

-- the spaces of isspace
abbrev pub spaces : Str
spaces = 32 ∷ 9 ∷ 10 ∷ 11 ∷ 12 ∷ 13 ∷ []

-- A number that is no int is undefined behaviour.
unfoldable pub atoi : Str → M ℤ
atoi s = to_int (signed (skip spaces s))

-- The decimal digits of a number with at most `n` of them.
unfoldable pub decimal : ℕ → ℕ → Str
decimal zero x = []
decimal (suc n) x =
    let front = decimal n (x / 10) in
    if ltb x 10 then (48 + x) ∷ [] else front ++ (48 + x % 10) ∷ []

-- "%d" of an int
unfoldable pub print_int : ℤ → Str
print_int (pos x) = decimal 10 x
print_int (negsuc x) = 45 ∷ decimal 10 (x + 1)
