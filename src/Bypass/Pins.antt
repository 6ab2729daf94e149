-- ===== src/Bypass/Pins.antt =====
-- The pins of common/site_bypass.c, an address for each domain, and how a name finds its pin.
pub mod Match
use raise_my_freedom.Common.{
  ℕ, ◌+◌, ◌-◌, Bool, true, false, ◌&&◌, ◌||◌, Option, none, some, List, [], ◌∷◌, ltb, leb, ◌==◌,
  if◌then◌else◌, length, take, drop, get_or,
}
use raise_my_freedom.SiteConfig.Text.{str_case_eq, copy}

-- `site_pin_t`
pub record Pin : Type 0 where
  pub domain : List ℕ
  pub ip : List ℕ

-- `MAX_SITE_DOMAINS`
abbrev pub max_site_domains : ℕ
max_site_domains = 64

-- Without the dots at the end.
unfoldable pub strip_dots : List ℕ → List ℕ
strip_dots [] = []
strip_dots (c ∷ s) =
    let rest = strip_dots s in
    elim rest [ [] ↦ (if c == b'.' then [] else c ∷ []) | b ∷ t ↦ c ∷ (b ∷ t) ]

-- `normalize_domain` into 256 bytes.
unfoldable pub normalize_domain : List ℕ → List ℕ
unfolding strip_dots
normalize_domain input = strip_dots (copy 256 input)

unfoldable pub domain_matches : List ℕ → List ℕ → Bool
unfolding str_case_eq
domain_matches query base =
    str_case_eq query base
    || (ltb (length base) (length query)
        && get_or query (length query - length base - 1) 0 == b'.'
        && str_case_eq (drop (length query - length base) query) base)

-- The address of the first pin that the test accepts.
unfoldable pub first_pin : (List ℕ → Bool) → List Pin → Option (List ℕ)
first_pin accepts [] = none
first_pin accepts (p ∷ pins) = if accepts p.domain then some p.ip else first_pin accepts pins

unfoldable pub lookup_pin : List Pin → List ℕ → Option (List ℕ)
unfolding first_pin domain_matches
lookup_pin pins domain = elim (first_pin (str_case_eq domain) pins) [
  | some ip ↦ some ip
  | none ↦ first_pin (domain_matches domain) pins
]
