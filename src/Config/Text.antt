-- ===== src/Config/Text.antt =====
-- The C library's text functions as src/config.c uses them, on strings without their final NUL.
use cik.Prelude.{
  ℕ, ◌+◌, ◌-◌, ◌*◌, ◌^◌, min, Bool, true, false, Option, none, some, List, [], ◌∷◌, leb, ◌==◌,
  if◌then◌else◌,
}
use Prim.Native.Char.{code}
use Prim.Native.String.{String}
use cik.Bytes.{Bytes}

-- The bytes of a literal; every one below is ASCII.
abbrev pub codes : String → Bytes
codes String.[] = []
codes (String.◌∷◌ c s) = code c ∷ codes s

-- `isspace` in the "C" locale: \t \n \v \f \r and the space.
abbrev pub isspace : ℕ → Bool
isspace c = if leb 9 c then (if leb c 13 then true else c == 32) else false

-- What a string function sees of a buffer: the bytes before the first NUL.
unfoldable pub c_string : Bytes → Bytes
c_string [] = []
c_string (c ∷ cs) = let rest = c_string cs in if c == 0 then [] else c ∷ rest

-- `strcmp (a, b) == 0`.
unfoldable pub str_eq : Bytes → Bytes → Bool
str_eq [] [] = true
str_eq (c ∷ cs) (d ∷ ds) = let rest = str_eq cs ds in if c == d then rest else false
str_eq _ _ = false

-- `while (isspace (*c)) ++c`.
unfoldable pub skip_spaces : Bytes → Bytes
skip_spaces [] = []
skip_spaces (c ∷ cs) = let rest = skip_spaces cs in if isspace c then rest else c ∷ cs

-- From the end, `while (isspace (*(c - 1))) --c`.
unfoldable pub trim_end : Bytes → Bytes
trim_end [] = []
trim_end (c ∷ cs) =
    let rest = trim_end cs in
    elim rest [ [] ↦ if isspace c then [] else c ∷ [] | d ∷ ds ↦ c ∷ (d ∷ ds) ]

add_front : ℕ → List Bytes → List Bytes
add_front c [] = (c ∷ []) ∷ []
add_front c (line ∷ lines) = (c ∷ line) ∷ lines

-- What the calls of fgets on a buffer of `room + 1` bytes return until the file is at its end: up
-- to and with a newline, or `room` bytes. `left` more bytes go to the current line.
fgets_lines : ℕ → ℕ → Bytes → List Bytes
unfolding add_front
fgets_lines room left [] = []
fgets_lines room left (c ∷ cs) =
    let next = fgets_lines room room cs in
    let more = fgets_lines room (left - 1) cs in
    if c == 10 then (c ∷ []) ∷ next else if leb left 1 then (c ∷ []) ∷ next else add_front c more

-- Each call of fgets with `sizeof (buffer)` = 0x400.
unfoldable pub file_lines : Bytes → List Bytes
unfolding fgets_lines
file_lines content = fgets_lines 0x3FF 0x3FF content

abbrev is_digit : ℕ → Bool
is_digit c = if leb 48 c then leb c 57 else false

digits : ℕ → Bytes → ℕ
digits value [] = value
digits value (c ∷ cs) =
    let rest = digits (value * 10 + (c - 48)) cs in if is_digit c then rest else value

-- `none` where no digit follows; otherwise whether there is a minus, and the number without it, at
-- most LONG_MAX (one more below 0).
number : Bool → Bytes → Option (Bool × ℕ)
unfolding digits
number negative [] = none
number negative (c ∷ cs) =
    if is_digit c
    then some (negative, min (digits 0 (c ∷ cs)) (if negative then 2 ^ 63 else 2 ^ 63 - 1))
    else none

signed : Bytes → Option (Bool × ℕ)
unfolding number
signed [] = none
signed (c ∷ cs) =
    if c == 45 then number true cs else if c == 43 then number false cs else number false (c ∷ cs)

-- `strtol (value, &endptr, 10)`; `none` is `endptr == value`.
unfoldable pub strtol : Bytes → Option (Bool × ℕ)
unfolding skip_spaces signed
strtol value = signed (skip_spaces value)
