-- ===== src/Bypass/PinFile.antt =====
-- The file of pins of common/site_bypass.c: `pins_save`, `pins_load`, `pins_reload` and
-- `pin_file_replace`.
pub mod RoundTrip
use raise_my_freedom.Common.{
  ℕ, zero, suc, ◌+◌, ◌-◌, Bool, true, false, not, ◌&&◌, ◌||◌, Option, none, some, List, [], ◌∷◌,
  ◌++◌, ltb, leb, ◌==◌, if◌then◌else◌, length, take,
}
use raise_my_freedom.SiteConfig.Text.{str_case_eq, copy}
use raise_my_freedom.SiteConfig.Config.{next_line}
use raise_my_freedom.Bypass.Pins.{Pin, max_site_domains}

-- White space for `sscanf`.
abbrev pub is_blank : ℕ → Bool
is_blank c = c == b' ' || (leb 9 c && leb c 13)

unfoldable pub skip_blanks : List ℕ → List ℕ
skip_blanks [] = []
skip_blanks (c ∷ s) = let rest = skip_blanks s in if is_blank c then rest else c ∷ s

-- `%<room>s` behind the white space: the word, and what follows it.
unfoldable pub take_word : ℕ → List ℕ → List ℕ × List ℕ
take_word zero s = ([], s)
take_word (suc room) [] = ([], [])
take_word (suc room) (c ∷ s) =
    let more = take_word room s in
    if is_blank c || c == 0 then ([], c ∷ s) else (c ∷ more.0, more.1)

-- `sscanf(line, "%255s %63s", dom, ip) == 2`
unfoldable pub scan_pin : List ℕ → Option Pin
unfolding skip_blanks take_word
scan_pin line =
    let first = take_word 255 (skip_blanks line) in
    let second = take_word 63 (skip_blanks first.1) in
    if length first.0 == 0 || length second.0 == 0
    then none
    else some (record { domain = first.0; ip = second.0 })

-- The loop over the lines: at most `MAX_SITE_DOMAINS` pins. A line takes at most 399 bytes.
unfoldable pub read_pins : ℕ → List ℕ → List Pin → List Pin
unfolding scan_pin next_line
read_pins zero text pins = pins
read_pins (suc fuel) [] pins = pins
read_pins (suc fuel) (c ∷ s) pins =
    let line = next_line 399 (c ∷ s) in
    let rest =
      read_pins fuel line.1 (elim (scan_pin line.0) [ none ↦ pins | some p ↦ pins ++ (p ∷ []) ]) in
    if ltb (length pins) max_site_domains then rest else pins

-- `pins_load`; a file that is not there gives no pins.
unfoldable pub pins_load : Option (List ℕ) → List Pin
unfolding read_pins
pins_load none = []
pins_load (some text) = read_pins (length text) text []

-- `pins_reload`: a file without a pin is not applied.
unfoldable pub pins_reload : Option (List ℕ) → List Pin → List Pin
unfolding pins_load
pins_reload file pins = elim (pins_load file) [ [] ↦ pins | p ∷ fresh ↦ p ∷ fresh ]

unfoldable pub pin_line : Pin → List ℕ
pin_line p = p.domain ++ (b' ' ∷ (p.ip ++ (b'\n' ∷ [])))

-- The text that `pins_save` writes.
unfoldable pub pins_save : List Pin → List ℕ
unfolding pin_line
pins_save [] = []
pins_save (p ∷ pins) = pin_line p ++ pins_save pins

-- The lines that `pin_file_replace` keeps.
unfoldable pub others : List ℕ → List Pin → List Pin
unfolding str_case_eq
others domain [] = []
others domain (p ∷ pins) =
    let rest = others domain pins in if str_case_eq p.domain domain then rest else p ∷ rest

-- The loop over the old lines, at most 64 kept.
unfoldable pub kept_pins : ℕ → List ℕ → List ℕ → List Pin → List Pin
unfolding scan_pin next_line str_case_eq
kept_pins zero domain text kept = kept
kept_pins (suc fuel) domain [] kept = kept
kept_pins (suc fuel) domain (c ∷ s) kept =
    let line = next_line 399 (c ∷ s) in
    let next : List Pin = elim (scan_pin line.0) [
      | none ↦ kept
      | some p ↦ if str_case_eq p.domain domain then kept else kept ++ (p ∷ [])
    ] in
    let rest = kept_pins fuel domain line.1 next in if ltb (length kept) 64 then rest else kept

-- `pin_file_replace` with the line of a pin: the file afterwards, where it can be written.
unfoldable pub pin_file_replace : Option (List ℕ) → Pin → List ℕ
unfolding kept_pins pins_save pin_line
pin_file_replace none p = pin_line p
pin_file_replace (some text) p = pins_save (kept_pins (length text) p.domain text []) ++ pin_line p
