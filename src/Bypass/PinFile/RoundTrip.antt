-- ===== src/Bypass/PinFile/RoundTrip.antt =====
-- The pins written to the file are the pins read from it.
use raise_my_freedom.Common.{
  ℕ, zero, suc, ◌+◌, ◌≤◌, ◌<◌, ◌≡◌, ◌≢◌, refl, sym, ap, ◌∙◌, true, false, ◌||◌, some, List, [], ◌∷◌,
  ◌++◌, arith, ◌==◌, if◌then◌else◌, length, All, Bool-cases, inl, inr, append_assoc, append-nil,
  length-append, ne→==, lt→ltb,
}
use raise_my_freedom.SiteConfig.Text.{str_case_eq}
use raise_my_freedom.SiteConfig.Config.{next_line}
use raise_my_freedom.Bypass.Pins.{Pin}
use raise_my_freedom.Bypass.PinFile.{
  is_blank, skip_blanks, take_word, scan_pin, read_pins, pins_load, pin_line, pins_save, others,
  kept_pins, pin_file_replace,
}

-- A byte that may stand in a word: neither white space nor the end of a string.
abbrev pub IsWordByte : ℕ → Type 0
IsWordByte c = (is_blank c ≡ false) × (c ≢ 0)

-- A pin that the file can hold.
pub record IsStorable (p : Pin) : Type 0 where
  pub domain_there : 0 < length p.domain
  pub domain_fits : length p.domain < 256
  pub domain_word : All IsWordByte p.domain
  pub ip_there : 0 < length p.ip
  pub ip_fits : length p.ip < 64
  pub ip_word : All IsWordByte p.ip

not_newline : (c : ℕ) → is_blank c ≡ false → (c == b'\n') ≡ false
not_newline c e = ground arith

word_byte : (c : ℕ) → IsWordByte c → is_blank c || c == 0 ≡ false
word_byte c (e, z) = rw (e, ne→== c 0 z) refl

abbrev IsLineByte : ℕ → Type 0
IsLineByte c = (c == b'\n') ≡ false

word-IsLineByte : (c : List ℕ) → All IsWordByte c → All IsLineByte c
word-IsLineByte [] h = tt
word-IsLineByte (a ∷ c) ((e, z), h) = (not_newline a e, word-IsLineByte c h)

All-append : (P : ℕ → Type 0) (xs ys : List ℕ) → All P xs → All P ys → All P (xs ++ ys)
All-append P [] ys h k = k
All-append P (x ∷ xs) ys (h, t) k = (h, All-append P xs ys t k)

next_line_line :
    (room : ℕ) (c rest : List ℕ)
    → length c < room
    → All IsLineByte c
    → next_line room (c ++ (b'\n' ∷ rest)) ≡ (c ++ (b'\n' ∷ []), rest)
unfolding next_line
next_line_line zero c rest h p = absurd (omega arith)
next_line_line (suc room) [] rest h p = refl
next_line_line (suc room) (b ∷ c) rest h (q, p) =
    rw (next_line_line room c rest (omega arith) p, q) refl

take_word_stop :
    (room : ℕ) (c s : List ℕ) (stop_byte : ℕ)
    → All IsWordByte c
    → length c ≤ room
    → is_blank stop_byte ≡ true
    → take_word room (c ++ (stop_byte ∷ s)) ≡ (c, stop_byte ∷ s)
unfolding take_word
take_word_stop zero [] s b h l e = refl
take_word_stop (suc room) [] s b h l e = rw e refl
take_word_stop zero (a ∷ c) s b h l e = absurd (omega arith)
take_word_stop (suc room) (a ∷ c) s b (x, h) l e =
    rw (take_word_stop room c s b h (omega arith) e, word_byte a x) refl

skip_blanks_word : (c s : List ℕ) → 0 < length c → All IsWordByte c → skip_blanks (c ++ s) ≡ c ++ s
unfolding skip_blanks
skip_blanks_word [] s l h = absurd (omega arith)
skip_blanks_word (a ∷ c) s l ((e, z), h) = rw e refl

not_empty : (s : List ℕ) → 0 < length s → (length s == 0) ≡ false
not_empty s l = ground arith

scan_pin-pin_line : (p : Pin) → IsStorable p → scan_pin (pin_line p) ≡ some p
unfolding scan_pin pin_line
scan_pin-pin_line p h =
    rw
      (
        skip_blanks_word p.domain (b' ' ∷ (p.ip ++ (b'\n' ∷ []))) h.domain_there h.domain_word,
        take_word_stop 255 p.domain (p.ip ++ (b'\n' ∷ [])) b' ' h.domain_word
            (omega (arith, h.domain_fits)) refl,
        skip_blanks_word p.ip (b'\n' ∷ []) h.ip_there h.ip_word,
        take_word_stop 63 p.ip [] b'\n' h.ip_word (omega (arith, h.ip_fits)) refl,
        not_empty p.domain h.domain_there,
        not_empty p.ip h.ip_there,
      )
      refl

-- A line is read whole, and the next one begins behind it.
next_line-pin_line :
    (p : Pin) (rest : List ℕ)
    → IsStorable p
    → next_line 399 (pin_line p ++ rest) ≡ (pin_line p, rest)
unfolding pin_line
next_line-pin_line p rest h =
    let front : List ℕ = p.domain ++ (b' ' ∷ p.ip) in
    let plain : All IsLineByte front =
      All-append IsLineByte p.domain (b' ' ∷ p.ip) (word-IsLineByte p.domain h.domain_word)
        (refl, word-IsLineByte p.ip h.ip_word) in
    let e =
      next_line_line 399 front rest
        (omega (arith, length-append p.domain (b' ' ∷ p.ip), h.domain_fits, h.ip_fits)) plain in
    rw
      (
        append_assoc p.domain (b' ' ∷ (p.ip ++ (b'\n' ∷ []))) rest,
        append_assoc p.ip (b'\n' ∷ []) rest,
        ← append_assoc p.domain (b' ' ∷ p.ip) (b'\n' ∷ rest),
        e,
        append_assoc p.domain (b' ' ∷ p.ip) (b'\n' ∷ []),
      )
      refl

-- A line is not empty.
pin_line-cons : (p : Pin) (rest : List ℕ) → (c : ℕ) × (s : List ℕ) × (pin_line p ++ rest ≡ c ∷ s)
unfolding pin_line
pin_line-cons p rest = by_domain p.domain
  where
    by_domain :
        (d : List ℕ)
        → (c : ℕ) × (s : List ℕ) × ((d ++ (b' ' ∷ (p.ip ++ (b'\n' ∷ [])))) ++ rest ≡ c ∷ s)
    by_domain [] = (b' ', _, refl)
    by_domain (c ∷ d) = (c, _, refl)

-- One round of the loop.
read_pins_cons :
    (fuel c : ℕ) (s text rest : List ℕ) (p : Pin) (pins : List Pin)
    → text ≡ c ∷ s
    → next_line 399 text ≡ (pin_line p, rest)
    → scan_pin (pin_line p) ≡ some p
    → length pins < 64
    → read_pins (suc fuel) text pins ≡ read_pins fuel rest (pins ++ (p ∷ []))
unfolding read_pins
read_pins_cons fuel c s text rest p pins t e f h =
    let e' : next_line 399 (c ∷ s) ≡ (pin_line p, rest) = sym (ap (next_line 399) t) ∙ e in
    rw (t, e', f, lt→ltb (length pins) 64 h) refl

read_pins-pins_save :
    (fuel : ℕ) (ps pins : List Pin)
    → All IsStorable ps
    → length pins + length ps ≤ 64
    → length ps ≤ fuel
    → read_pins fuel (pins_save ps) pins ≡ pins ++ ps
unfolding pins_save
read_pins-pins_save zero [] pins h l f = unfold read_pins in sym (append-nil pins)
read_pins-pins_save (suc fuel) [] pins h l f = unfold read_pins in sym (append-nil pins)
read_pins-pins_save zero (p ∷ ps) pins h l f = absurd (omega arith)
read_pins-pins_save (suc fuel) (p ∷ ps) pins (x, h) l f =
    let (c, s, t) = pin_line-cons p (pins_save ps) in
    read_pins_cons fuel c s (pin_line p ++ pins_save ps) (pins_save ps) p pins t
      (next_line-pin_line p (pins_save ps) x) (scan_pin-pin_line p x) (omega arith)
    ∙ read_pins-pins_save fuel ps (pins ++ (p ∷ [])) h (omega (arith, length-append pins (p ∷ [])))
        (omega arith)
    ∙ append_assoc pins (p ∷ []) ps

length-pins_save : (ps : List Pin) → length ps ≤ length (pins_save ps)
unfolding pins_save pin_line
length-pins_save [] = omega arith
length-pins_save (p ∷ ps) = omega (
  arith,
  length-pins_save ps,
  length-append (p.domain ++ (b' ' ∷ (p.ip ++ (b'\n' ∷ [])))) (pins_save ps),
  length-append p.domain (b' ' ∷ (p.ip ++ (b'\n' ∷ []))),
)

-- At most 64 pins, each a domain and an address of the lengths of their fields and without white
-- space, are loaded as they were saved.
pub pins_load-pins_save :
    (ps : List Pin) → All IsStorable ps → length ps ≤ 64 → pins_load (some (pins_save ps)) ≡ ps
unfolding pins_load
pins_load-pins_save ps h l =
    read_pins-pins_save (length (pins_save ps)) ps [] h (omega arith) (length-pins_save ps)

kept_pins_cons :
    (fuel c : ℕ) (domain s text rest : List ℕ) (p : Pin) (kept : List Pin)
    → text ≡ c ∷ s
    → next_line 399 text ≡ (pin_line p, rest)
    → scan_pin (pin_line p) ≡ some p
    → length kept < 64
    → kept_pins (suc fuel) domain text kept
      ≡ kept_pins fuel domain rest (if str_case_eq p.domain domain then kept else kept ++ (p ∷ []))
unfolding kept_pins
kept_pins_cons fuel c domain s text rest p kept t e f h =
    let e' : next_line 399 (c ∷ s) ≡ (pin_line p, rest) = sym (ap (next_line 399) t) ∙ e in
    rw (t, e', f, lt→ltb (length kept) 64 h) refl

kept_pins-pins_save :
    (fuel : ℕ) (domain : List ℕ) (ps kept : List Pin)
    → All IsStorable ps
    → length kept + length ps ≤ 64
    → length ps ≤ fuel
    → kept_pins fuel domain (pins_save ps) kept ≡ kept ++ others domain ps
unfolding pins_save others
kept_pins-pins_save zero domain [] kept h l f = unfold kept_pins in sym (append-nil kept)
kept_pins-pins_save (suc fuel) domain [] kept h l f = unfold kept_pins in sym (append-nil kept)
kept_pins-pins_save zero domain (p ∷ ps) kept h l f = absurd (omega arith)
kept_pins-pins_save (suc fuel) domain (p ∷ ps) kept (x, h) l f =
    let (c, s, t) = pin_line-cons p (pins_save ps) in
    kept_pins_cons fuel c domain s (pin_line p ++ pins_save ps) (pins_save ps) p kept t
      (next_line-pin_line p (pins_save ps) x) (scan_pin-pin_line p x) (omega arith)
    ∙ elim (Bool-cases (str_case_eq p.domain domain)) [
      | inl e ↦ rw e (kept_pins-pins_save fuel domain ps kept h (omega arith) (omega arith))
      | inr e ↦ rw e (
          kept_pins-pins_save fuel domain ps (kept ++ (p ∷ [])) h
            (omega (arith, length-append kept (p ∷ []))) (omega arith)
          ∙ append_assoc kept (p ∷ []) (others domain ps))
    ]

pins_save-append : (xs ys : List Pin) → pins_save (xs ++ ys) ≡ pins_save xs ++ pins_save ys
unfolding pins_save
pins_save-append [] ys = refl
pins_save-append (x ∷ xs) ys =
    rw (pins_save-append xs ys, append_assoc (pin_line x) (pins_save xs) (pins_save ys)) refl

others-IsStorable :
    (domain : List ℕ) (ps : List Pin) → All IsStorable ps → All IsStorable (others domain ps)
unfolding others
others-IsStorable domain [] h = tt
others-IsStorable domain (p ∷ ps) (x, h) = elim (Bool-cases (str_case_eq p.domain domain)) [
  | inl e ↦ rw e (others-IsStorable domain ps h)
  | inr e ↦ rw e (x, others-IsStorable domain ps h)
]

length-others : (domain : List ℕ) (ps : List Pin) → length (others domain ps) ≤ length ps
unfolding others
length-others domain [] = omega arith
length-others domain (p ∷ ps) = elim (Bool-cases (str_case_eq p.domain domain)) [
  | inl e ↦ rw e (omega (arith, length-others domain ps))
  | inr e ↦ rw e (omega (arith, length-others domain ps))
]

Storable-append :
    (xs ys : List Pin) → All IsStorable xs → All IsStorable ys → All IsStorable (xs ++ ys)
Storable-append [] ys h k = k
Storable-append (x ∷ xs) ys (h, t) k = (h, Storable-append xs ys t k)

-- Where fewer than 64 pins are saved, each a domain and an address of the lengths of their fields
-- and without white space, as the new one is: after `pin_file_replace` the file is loaded as the
-- pins of the other domains, in order, and then the new pin.
pub pins_load-pin_file_replace :
    (ps : List Pin) (p : Pin)
    → All IsStorable ps
    → IsStorable p
    → length ps < 64
    → pins_load (some (pin_file_replace (some (pins_save ps)) p)) ≡ others p.domain ps ++ (p ∷ [])
unfolding pin_file_replace
pins_load-pin_file_replace ps p h x l =
    let rest : List Pin = others p.domain ps in
    let kept =
      kept_pins-pins_save (length (pins_save ps)) p.domain ps [] h (omega arith)
        (length-pins_save ps) in
    let one : pin_line p ≡ pins_save (p ∷ []) = unfold pins_save in sym (append-nil (pin_line p)) in
    rw (kept, one, ← pins_save-append rest (p ∷ []))
      (pins_load-pins_save (rest ++ (p ∷ []))
        (Storable-append rest (p ∷ []) (others-IsStorable p.domain ps h) (x, tt))
        (omega (arith, length-append rest (p ∷ []), length-others p.domain ps)))
