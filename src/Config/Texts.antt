-- ===== src/Config/Texts.antt =====
-- The functions of Go's strings, bufio and strconv that server/internal/config/config.go calls, on the
-- characters of a text.
pub mod Laws
use Prim.Native.Char.{Char, code, len_utf8}
use Prim.Native.String.{String}
use distribuid_system_simula.Prelude.{
  ℕ, zero, suc, ◌+◌, ◌-◌, ◌*◌, Bool, true, false, ◌&&◌, ◌||◌, Option, none, some, List, [], ◌∷◌,
  ◌++◌, eqb, leb, ltb, if◌then◌else◌,
}
use distribuid_system_simula.Prelude.Int.{ℤ, pos, negsuc}

abbrev pub chars : String → List Char
chars String.[] = []
chars (String.◌∷◌ c s) = c ∷ chars s

abbrev pub text : List Char → String
text [] = String.[]
text (c ∷ cs) = String.◌∷◌ c (text cs)

-- a character by its number
abbrev pub is : ℕ → Char → Bool
is n c = eqb (code c) n

abbrev pub between : ℕ → ℕ → ℕ → Bool
between low high n = leb low n && leb n high

-- `unicode.IsSpace`
unfoldable pub is_space : Char → Bool
is_space c =
    let n = code c in
    between 9 13 n
    || (eqb n 32
        || (eqb n 133
            || (eqb n 160
                || (eqb n 5760
                    || (between 8192 8202 n
                        || (eqb n 8232
                            || (eqb n 8233 || (eqb n 8239 || (eqb n 8287 || eqb n 12288)))))))))

unfoldable pub trim_start : List Char → List Char
trim_start [] = []
trim_start (c ∷ cs) = let rest = trim_start cs in if is_space c then rest else c ∷ cs

abbrev pub cons_unless_blank : Char → List Char → List Char
cons_unless_blank c [] = if is_space c then [] else c ∷ []
cons_unless_blank c (d ∷ ds) = c ∷ d ∷ ds

unfoldable pub trim_end : List Char → List Char
trim_end [] = []
trim_end (c ∷ cs) = cons_unless_blank c (trim_end cs)

-- `strings.TrimSpace`
unfoldable pub trim_space : List Char → List Char
trim_space s = trim_end (trim_start s)

abbrev pub put_first : Char → Option (List Char × List Char) → Option (List Char × List Char)
put_first c none = none
put_first c (some (before, after)) = some (c ∷ before, after)

-- `strings.SplitN(line, "=", 2)`: the two parts, or `none` where there is one
unfoldable pub split_two : List Char → Option (List Char × List Char)
split_two [] = none
split_two (c ∷ cs) = let rest = split_two cs in if is 61 c then some ([], cs) else put_first c rest

abbrev pub drop_cr : List Char → List Char
drop_cr [] = []
drop_cr (c ∷ []) = if is 13 c then [] else c ∷ []
drop_cr (c ∷ d ∷ ds) = c ∷ drop_cr (d ∷ ds)

abbrev pub last_line : List Char → List (List Char)
last_line [] = []
last_line (c ∷ cs) = (c ∷ cs) ∷ []

-- `bufio.ScanLines`, with the line read so far; the ends of the lines are still on them
unfoldable pub lines : List Char → List Char → List (List Char)
lines line [] = last_line line
lines line (c ∷ cs) =
    let next = lines [] cs in
    let more = lines (line ++ c ∷ []) cs in if is 10 c then line ∷ next else more

unfoldable pub bytes : List Char → ℕ
bytes [] = 0
bytes (c ∷ cs) = len_utf8 c + bytes cs

-- A `bufio.Scanner` stops at a line that its buffer of 64 KB cannot hold.
unfoldable pub scan_lines : List (List Char) → List (List Char)
scan_lines [] = []
scan_lines (line ∷ rest) =
    let later = scan_lines rest in if leb 65536 (bytes line) then [] else drop_cr line ∷ later

-- The digits of a number, behind `n`.
unfoldable pub digits_value : ℕ → List Char → Option ℕ
digits_value n [] = some n
digits_value n (c ∷ cs) =
    let rest = digits_value (n * 10 + (code c - 48)) cs in
    if between 48 57 (code c) then rest else none

abbrev pub digits : List Char → Option ℕ
digits [] = none
digits (c ∷ cs) = digits_value 0 (c ∷ cs)

abbrev pub negated : ℕ → ℤ
negated zero = pos 0
negated (suc n) = negsuc n

-- an int has 64 bits
abbrev pub in_range_up : Option ℕ → Option ℤ
in_range_up none = none
in_range_up (some n) = if ltb n 9223372036854775808 then some (pos n) else none

abbrev pub in_range_down : Option ℕ → Option ℤ
in_range_down none = none
in_range_down (some n) = if leb n 9223372036854775808 then some (negated n) else none

-- `strconv.Atoi`; `none` is an error
unfoldable pub atoi : List Char → Option ℤ
atoi [] = none
atoi (c ∷ cs) =
    if is 45 c
    then in_range_down (digits cs)
    else if is 43 c
    then in_range_up (digits cs)
    else in_range_up (digits (c ∷ cs))
