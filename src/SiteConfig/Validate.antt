-- ===== src/SiteConfig/Validate.antt =====
-- `site_config_validate` of common/site_config.c and the checks that it makes.
use raise_my_freedom.Common.{
  ℕ, zero, suc, ◌+◌, ◌-◌, ◌*◌, ◌%◌, ◌^◌, Bool, true, false, not, ◌&&◌, ◌||◌, Option, none, some,
  List, [], ◌∷◌, ltb, leb, ◌==◌, if◌then◌else◌, length,
}
use raise_my_freedom.SiteConfig.Text.{is_digit, is_alnum}
use raise_my_freedom.SiteConfig.Config.{Config}

unfoldable pub all_bytes : (ℕ → Bool) → List ℕ → Bool
all_bytes p [] = true
all_bytes p (c ∷ s) = p c && all_bytes p s

abbrev not_empty : List ℕ → Bool
not_empty [] = false
not_empty (c ∷ s) = true

abbrev pub chain_byte : ℕ → Bool
chain_byte c = is_alnum c || c == b'_'

abbrev pub host_byte : ℕ → Bool
host_byte c = is_alnum c || c == b'.' || c == b'-' || c == b'_'

unfoldable pub valid_chain : List ℕ → Bool
unfolding all_bytes
valid_chain s = not_empty s && all_bytes chain_byte s

unfoldable pub valid_host : List ℕ → Bool
unfolding all_bytes
valid_host s = not_empty s && all_bytes host_byte s

-- The digits of one octet: what is behind them, if there are three at most and the value fits.
unfoldable pub octet : ℕ → ℕ → List ℕ → Option (List ℕ)
octet count val [] = some []
octet count val (c ∷ s) =
    let val' = val * 10 + (c - b'0') in
    let r = octet (count + 1) val' s in
    if not (is_digit c) then some (c ∷ s) else if ltb 3 (count + 1) || ltb 255 val' then none else r

-- The digits of the prefix, in an `int` that wraps: its value and what is behind it.
unfoldable pub prefix : ℕ → List ℕ → ℕ × List ℕ
prefix bits [] = (bits, [])
prefix bits (c ∷ s) =
    let r = prefix ((bits * 10 + (c - b'0')) % 2 ^ 32) s in if is_digit c then r else (bits, c ∷ s)

-- Behind the slash: digits to the end, and their value in 0..32.
unfoldable pub valid_prefix : List ℕ → Bool
unfolding prefix
valid_prefix [] = false
valid_prefix (c ∷ s) =
    let r = prefix 0 (c ∷ s) in elim r.1 [ [] ↦ is_digit c && leb r.0 32 | _ ↦ false ]

-- The `for` loop; each round takes a byte at least.
unfoldable pub octets : ℕ → ℕ → Bool → List ℕ → Bool
unfolding octet valid_prefix
octets zero parts allow s = false
octets (suc fuel) parts allow [] = false
octets (suc fuel) parts allow (c ∷ s) = elim (is_digit c) [
  | false ↦ false
  | true ↦ elim (octet 0 0 (c ∷ s)) [
    | none ↦ false
    | some [] ↦ parts + 1 == 4
    | some (d ∷ rest) ↦ elim (d == b'.') [
      | true ↦ octets fuel (parts + 1) allow rest
      | false ↦ d == b'/' && allow && valid_prefix rest && parts + 1 == 4
    ]
  ]
]

-- `valid_ipv4`
unfoldable pub valid_ipv4 : List ℕ → Bool → Bool
unfolding octets
valid_ipv4 s allow_prefix = octets (suc (length s)) 0 allow_prefix s

pub data Reason : Type 0 where
  bad_label bad_chain bad_dns_port bad_relay_port same_ports bad_mark : Reason
  bad_primary bad_fallback bad_domain bad_cidr bad_fallback_ip : Reason

-- An `int` outside 0..65535.
abbrev bad_port : ℕ → Bool
bad_port w = leb (2 ^ 31) w || ltb 65535 w

abbrev pub optional : List ℕ → Bool → Bool
optional [] valid = true
optional (c ∷ s) valid = valid

unfoldable pub all_texts : (List ℕ → Bool) → List (List ℕ) → Bool
all_texts p [] = true
all_texts p (s ∷ rest) = p s && all_texts p rest

-- `site_config_validate`: the first check that fails.
unfoldable pub validate : Config → Option Reason
unfolding valid_host valid_chain valid_ipv4 all_texts
validate c =
    if not (optional c.label (valid_host c.label))
    then some bad_label
    else if not (optional c.chain (valid_chain c.chain))
    then some bad_chain
    else if bad_port c.dns_port
    then some bad_dns_port
    else if bad_port c.relay_port
    then some bad_relay_port
    else if c.dns_port == c.relay_port && not (c.dns_port == 0)
    then some same_ports
    else if ltb c.mark 0x4d50 || ltb 0x4d5f c.mark
    then some bad_mark
    else if not (optional c.primary_dns (valid_ipv4 c.primary_dns false))
    then some bad_primary
    else if not (optional c.fallback_dns (valid_ipv4 c.fallback_dns false))
    then some bad_fallback
    else if not (all_texts valid_host c.domains)
    then some bad_domain
    else if not (all_texts (λ s. valid_ipv4 s true) c.cidrs)
    then some bad_cidr
    else if not (all_texts (λ s. valid_ipv4 s false) c.fallback_ips)
    then some bad_fallback_ip
    else none
