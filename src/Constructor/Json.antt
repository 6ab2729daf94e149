-- ===== src/Constructor/Json.antt =====
-- The small JSON reader of constructor/validate.c, over the bytes of the text without its NUL.
use raise_my_freedom.Common.{
  ℕ, zero, suc, ◌-◌, ◌%◌, ◌^◌, true, false, ◌||◌, Option, none, some, List, [], ◌∷◌, ◌++◌, ltb, leb,
  ◌==◌, if◌then◌else◌,
}
use raise_my_freedom.SiteConfig.Text.{digits, skip_space}

-- What stands behind `pat` if the text begins with it.
unfoldable pub after_prefix : List ℕ → List ℕ → Option (List ℕ)
after_prefix [] s = some s
after_prefix (c ∷ pat) [] = none
after_prefix (c ∷ pat) (d ∷ s) = if c == d then after_prefix pat s else none

-- `strstr`: what stands behind the first place of `pat`.
unfoldable pub find_text : List ℕ → List ℕ → Option (List ℕ)
find_text pat [] = after_prefix pat []
find_text pat (c ∷ s) =
    let rest = find_text pat s in elim (after_prefix pat (c ∷ s)) [ some r ↦ some r | none ↦ rest ]

-- `strchr(p, ':')` and one byte on.
unfoldable pub after_colon : List ℕ → Option (List ℕ)
after_colon [] = none
after_colon (c ∷ s) = if c == b':' then some s else after_colon s

unfoldable pub skip_blanks : List ℕ → List ℕ
skip_blanks [] = []
skip_blanks (c ∷ s) =
    if c == b' ' || c == b'\t' || c == b'\n' || c == b'\r' then skip_blanks s else c ∷ s

-- `json_find`
unfoldable pub json_find : List ℕ → List ℕ → Option (List ℕ)
unfolding after_prefix find_text after_colon skip_blanks
json_find json key = elim (find_text (b'"' ∷ (key ++ (b'"' ∷ []))) json) [
  | none ↦ none
  | some behind ↦ elim (after_colon behind) [ none ↦ none | some value ↦ some (skip_blanks value) ]
]

-- The copying loop of `json_str`, with room for `room` bytes: `\n` becomes a line end, any other
-- escaped byte itself.
unfoldable pub unescape : ℕ → List ℕ → List ℕ
unescape zero s = []
unescape (suc room) [] = []
unescape (suc room) (c ∷ []) = if c == b'"' then [] else c ∷ []
unescape (suc room) (c ∷ d ∷ s) =
    let escaped = unescape room s in
    let plain = unescape room (d ∷ s) in
    if c == b'"'
    then []
    else if c == b'\\'
    then (if d == b'n' then b'\n' else d) ∷ escaped
    else c ∷ plain

-- `json_str` into a zeroed buffer of `size` bytes.
unfoldable pub json_str : List ℕ → List ℕ → ℕ → List ℕ
unfolding json_find unescape
json_str json key size = elim (json_find json key) [
  | none ↦ []
  | some [] ↦ []
  | some (c ∷ s) ↦ if c == b'"' then unescape (size - 1) s else []
]

-- `atoi`, as the 32-bit pattern of its int: a long that stops at its ends, cut to 32 bits.
unfoldable pub atoi : List ℕ → ℕ
unfolding digits skip_space
atoi v = elim (skip_space v) [
  | [] ↦ 0
  | c ∷ s ↦
      let n = (digits 10 0 (if c == b'-' || c == b'+' then s else c ∷ s)).0 in
      if c == b'-'
      then (2 ^ 64 - (if leb n (2 ^ 63) then n else 2 ^ 63)) % 2 ^ 32
      else (if ltb n (2 ^ 63) then n else 2 ^ 63 - 1) % 2 ^ 32
]

-- `json_int`
unfoldable pub json_int : List ℕ → List ℕ → ℕ → ℕ
unfolding json_find atoi
json_int json key default = elim (json_find json key) [
  | none ↦ default
  | some [] ↦ atoi []
  | some (c ∷ s) ↦ atoi (if c == b'"' then s else c ∷ s)
]

-- The bytes up to a quote, `room` at most, and what is left from there on.
unfoldable pub take_quoted : ℕ → List ℕ → List ℕ × List ℕ
take_quoted zero s = ([], s)
take_quoted (suc room) [] = ([], [])
take_quoted (suc room) (c ∷ s) =
    let r = take_quoted room s in if c == b'"' then ([], c ∷ s) else (c ∷ r.0, r.1)

unfoldable pub skip_commas : List ℕ → List ℕ
skip_commas [] = []
skip_commas (c ∷ s) = if c == b' ' || c == b',' then skip_commas s else c ∷ s

abbrev skip_quote : List ℕ → List ℕ
skip_quote [] = []
skip_quote (c ∷ s) = if c == b'"' then s else c ∷ s

-- The `while` loop of `json_str_array`, with room for `room` texts.
unfoldable pub array_items : ℕ → List ℕ → List (List ℕ)
unfolding take_quoted skip_commas
array_items zero s = []
array_items (suc room) [] = []
array_items (suc room) (c ∷ s) = elim (c == b']') [
  | true ↦ []
  | false ↦ elim (skip_commas (c ∷ s)) [
    | [] ↦ []
    | d ∷ t ↦ elim (d == b'"') [
      | false ↦ []
      | true ↦ let r = take_quoted 127 t in r.0 ∷ array_items room (skip_quote r.1)
    ]
  ]
]

-- `json_str_array`
unfoldable pub json_str_array : List ℕ → List ℕ → ℕ → List (List ℕ)
unfolding json_find array_items
json_str_array json key limit = elim (json_find json key) [
  | none ↦ []
  | some [] ↦ []
  | some (c ∷ s) ↦ if c == b'[' then array_items limit s else []
]
