-- ===== src/SiteConfig/Text.antt =====
-- The C text routines that common/site_config.c uses, on the bytes of a string without its NUL.
use raise_my_freedom.Common.{
  ℕ, ◌+◌, ◌-◌, ◌*◌, ◌%◌, ◌^◌, Bool, true, false, ◌&&◌, ◌||◌, Option, none, some, List, [], ◌∷◌, ltb,
  leb, ◌==◌, if◌then◌else◌, take,
}

-- The string ends at the first NUL.
unfoldable pub c_string : List ℕ → List ℕ
c_string [] = []
c_string (c ∷ s) = if c == 0 then [] else c ∷ c_string s

-- `strcmp(a, b) == 0`
unfoldable pub str_eq : List ℕ → List ℕ → Bool
str_eq [] [] = true
str_eq (a ∷ s) (b ∷ t) = a == b && str_eq s t
str_eq _ _ = false

abbrev pub lower : ℕ → ℕ
lower c = if leb b'A' c && leb c b'Z' then c + 32 else c

-- `strcasecmp(a, b) == 0`
unfoldable pub str_case_eq : List ℕ → List ℕ → Bool
str_case_eq [] [] = true
str_case_eq (a ∷ s) (b ∷ t) = lower a == lower b && str_case_eq s t
str_case_eq _ _ = false

-- `snprintf(dst, n, "%s", s)` keeps `n - 1` bytes.
abbrev pub copy : ℕ → List ℕ → List ℕ
copy n s = take (n - 1) s

abbrev pub is_digit : ℕ → Bool
is_digit c = leb b'0' c && leb c b'9'

abbrev pub is_alnum : ℕ → Bool
is_alnum c = is_digit c || (leb b'a' c && leb c b'z') || (leb b'A' c && leb c b'Z')

-- `trim`: blanks in front; blanks and line ends behind.
unfoldable pub trim_front : List ℕ → List ℕ
trim_front [] = []
trim_front (c ∷ s) = if c == b' ' || c == b'\t' then trim_front s else c ∷ s

unfoldable pub trim_back : List ℕ → List ℕ
trim_back [] = []
trim_back (c ∷ s) =
    let t = trim_back s in
    elim t [
      | [] ↦ if c == b' ' || c == b'\t' || c == b'\r' || c == b'\n' then [] else c ∷ []
      | x ∷ xs ↦ c ∷ x ∷ xs
    ]

unfoldable pub trim : List ℕ → List ℕ
unfolding trim_front trim_back
trim s = trim_back (trim_front s)

-- `strchr` and what is cut there: the text in front, and behind if the byte is found.
unfoldable pub split_at : ℕ → List ℕ → List ℕ × Option (List ℕ)
split_at b [] = ([], none)
split_at b (c ∷ s) = let r = split_at b s in if c == b then ([], some s) else (c ∷ r.0, r.1)

-- `strip_comment`
abbrev pub strip_comment : List ℕ → List ℕ
strip_comment s = (split_at b'#' s).0

-- The value of a digit or letter, 36 for anything else.
unfoldable pub digit_value : ℕ → ℕ
digit_value c =
    if is_digit c
    then c - b'0'
    else if leb b'a' c && leb c b'z'
    then c - b'a' + 10
    else if leb b'A' c && leb c b'Z'
    then c - b'A' + 10
    else 36

-- The digits of `strtol` in a base: the number and what is behind it.
unfoldable pub digits : ℕ → ℕ → List ℕ → ℕ × List ℕ
unfolding digit_value
digits base acc [] = (acc, [])
digits base acc (c ∷ s) =
    let r = digits base (acc * base + digit_value c) s in
    if ltb (digit_value c) base then r else (acc, c ∷ s)

-- Base 0: `0x` and a hexadecimal digit, a leading `0`, or a decimal digit; `none` if no digit.
unfoldable pub unsigned : List ℕ → Option (ℕ × List ℕ)
unfolding digits
unsigned [] = none
unsigned (c ∷ []) = if is_digit c then some (digits 10 0 (c ∷ [])) else none
unsigned (c ∷ x ∷ []) =
    if c == b'0'
    then some (digits 8 0 (c ∷ x ∷ []))
    else if is_digit c
    then some (digits 10 0 (c ∷ x ∷ []))
    else none
unsigned (c ∷ x ∷ h ∷ s) =
    if c == b'0' && lower x == b'x' && ltb (digit_value h) 16
    then some (digits 16 0 (h ∷ s))
    else if c == b'0'
    then some (digits 8 0 (c ∷ x ∷ h ∷ s))
    else if is_digit c
    then some (digits 10 0 (c ∷ x ∷ h ∷ s))
    else none

-- `isspace`
abbrev is_space : ℕ → Bool
is_space c = c == b' ' || (leb 9 c && leb c 13)

unfoldable pub skip_space : List ℕ → List ℕ
skip_space [] = []
skip_space (c ∷ s) = if is_space c then skip_space s else c ∷ s

-- The sign, and the number behind it if it takes up the whole text.
unfoldable pub whole_number : List ℕ → Option (Bool × ℕ)
unfolding unsigned skip_space
whole_number v = elim (skip_space v) [
  | [] ↦ none
  | c ∷ s ↦
      let signed = c == b'-' || c == b'+' in
      elim (unsigned (if signed then s else c ∷ s)) [
        | some (n, []) ↦ some (c == b'-', n)
        | _ ↦ none
      ]
]

-- `parse_int`: a long of 64 bits, and its low 32 bits, which are the int.
unfoldable pub parse_int : List ℕ → Option ℕ
unfolding whole_number
parse_int v = elim (whole_number v) [
  | none ↦ none
  | some (true, n) ↦ if leb n (2 ^ 63) then some ((2 ^ 64 - n) % 2 ^ 32) else none
  | some (false, n) ↦ if ltb n (2 ^ 63) then some (n % 2 ^ 32) else none
]

-- `parse_uint`: an unsigned long, and its low 32 bits.
unfoldable pub parse_uint : List ℕ → Option ℕ
unfolding whole_number
parse_uint v = elim (whole_number v) [
  | none ↦ none
  | some (true, n) ↦ if ltb n (2 ^ 64) then some ((2 ^ 64 - n) % 2 ^ 32) else none
  | some (false, n) ↦ if ltb n (2 ^ 64) then some (n % 2 ^ 32) else none
]
