-- ===== src/SiteConfig/Config.antt =====
-- The parameters and `site_config_load` of common/site_config.c. An `int` field is its 32-bit
-- pattern. A file is its bytes, or none where it cannot be opened.
use raise_my_freedom.Common.{
  ℕ, zero, suc, ◌+◌, Bool, Option, none, some, List, [], ◌∷◌, ◌++◌, leb, ◌==◌, if◌then◌else◌,
  length, map,
}
use Prim.Native.Char.{code}
use Prim.Native.String.{String}
use raise_my_freedom.SiteConfig.Text.{
  c_string, str_eq, str_case_eq, lower, copy, trim, split_at, strip_comment, parse_int, parse_uint,
}

abbrev pub codes : String → List ℕ
codes String.[] = []
codes (String.◌∷◌ c s) = code c ∷ codes s

pub data Method : Type 0 where
  sni relay pin drop : Method

-- `METHOD_NAMES`
abbrev pub method_name : Method → List ℕ
method_name sni = codes "sni"
method_name relay = codes "relay"
method_name pin = codes "pin"
method_name drop = codes "drop"

-- The four names, tried in order.
unfoldable pub find_method : (List ℕ → List ℕ → Bool) → List ℕ → Option Method
find_method eq v =
    if eq v (method_name sni)
    then some sni
    else if eq v (method_name relay)
    then some relay
    else if eq v (method_name pin)
    then some pin
    else if eq v (method_name drop)
    then some drop
    else none

-- `site_method_from_name`: an unknown name is `sni`.
unfoldable pub method_from_name : List ℕ → Method
unfolding find_method str_case_eq
method_from_name name = elim (find_method str_case_eq name) [ some m ↦ m | none ↦ sni ]

-- `site_config_t`; the counts are the lengths of the lists.
pub record Config : Type 0 where
  pub label : List ℕ
  pub chain : List ℕ
  pub method : Method
  pub dns_port : ℕ
  pub relay_port : ℕ
  pub mark : ℕ
  pub primary_dns : List ℕ
  pub fallback_dns : List ℕ
  pub domains : List (List ℕ)
  pub cidrs : List (List ℕ)
  pub fallback_ips : List (List ℕ)

abbrev pub max_domains : ℕ
max_domains = 64

abbrev pub max_cidr : ℕ
max_cidr = 32

abbrev pub max_fallback : ℕ
max_fallback = 16

-- `SITE_CONF_MAX_LABEL`, `SITE_CONF_MAX_CHAIN` and `SITE_CONF_MAX_HOST`
abbrev pub max_host : ℕ
max_host = 64

-- `site_config_defaults`
unfoldable pub defaults : Config
defaults = record {
  label = [];
  chain = [];
  method = sni;
  dns_port = 0;
  relay_port = 0;
  mark = 0x4d50;
  primary_dns = codes "1.1.1.1";
  fallback_dns = codes "8.8.8.8";
  domains = [];
  cidrs = [];
  fallback_ips = [];
}

-- Why a line is refused, with its number.
pub data LoadError : Type 0 where
  no_equals : ℕ → LoadError
  empty_value : ℕ → List ℕ → LoadError
  unknown_method : ℕ → List ℕ → LoadError
  not_a_number : ℕ → List ℕ → List ℕ → LoadError
  too_many : ℕ → List ℕ → LoadError
  unknown_key : ℕ → List ℕ → LoadError

pub data Loaded : Type 0 where
  ok : Config → Loaded
  no_file : Loaded
  refused : LoadError → Loaded

-- A failure ends the loop.
infixl 5 ◌>>=◌
abbrev pub ◌>>=◌ : Loaded → (Config → Loaded) → Loaded
ok c >>= f = f c
no_file >>= f = no_file
refused e >>= f = refused e

-- `add_domain`, `add_cidr` and `add_fallback`: what is appended, if there is room.
unfoldable pub add_to : ℕ → List (List ℕ) → List ℕ → Option (List (List ℕ))
add_to limit l v = if leb limit (length l) then none else some (l ++ (copy max_host v ∷ []))

-- `char low[32]` and the loop that lowers it.
abbrev lowered : List ℕ → List ℕ
lowered v = map lower (copy 32 v)

-- The `else if` chain over the keys.
unfoldable pub set_key : ℕ → Config → List ℕ → List ℕ → Loaded
set_key line c key v =
    if str_eq key (codes "label")
    then ok (record c { label = copy max_host v })
    else if str_eq key (codes "chain")
    then ok (record c { chain = copy max_host v })
    else if str_eq key (codes "primary_dns")
    then ok (record c { primary_dns = copy max_host v })
    else if str_eq key (codes "fallback_dns")
    then ok (record c { fallback_dns = copy max_host v })
    else if str_eq key (codes "method")
    then elim (find_method str_eq (lowered v)) [
      | some m ↦ ok (record c { method = m })
      | none ↦ refused (unknown_method line v)
    ]
    else if str_eq key (codes "dns_port")
    then elim (parse_int v) [
      | some n ↦ ok (record c { dns_port = n })
      | none ↦ refused (not_a_number line key v)
    ]
    else if str_eq key (codes "relay_port")
    then elim (parse_int v) [
      | some n ↦ ok (record c { relay_port = n })
      | none ↦ refused (not_a_number line key v)
    ]
    else if str_eq key (codes "mark")
    then elim (parse_uint v) [
      | some n ↦ ok (record c { mark = n })
      | none ↦ refused (not_a_number line key v)
    ]
    else if str_eq key (codes "domain")
    then elim (add_to max_domains c.domains v) [
      | some l ↦ ok (record c { domains = l })
      | none ↦ refused (too_many line key)
    ]
    else if str_eq key (codes "cidr")
    then elim (add_to max_cidr c.cidrs v) [
      | some l ↦ ok (record c { cidrs = l })
      | none ↦ refused (too_many line key)
    ]
    else if str_eq key (codes "fallback_ip")
    then elim (add_to max_fallback c.fallback_ips v) [
      | some l ↦ ok (record c { fallback_ips = l })
      | none ↦ refused (too_many line key)
    ]
    else refused (unknown_key line key)

-- The value behind `=`, trimmed.
unfoldable pub load_value : ℕ → Config → List ℕ → List ℕ → Loaded
load_value line c key [] = refused (empty_value line key)
load_value line c key (v ∷ vs) = set_key line c key (v ∷ vs)

-- The text of a line in front of `=` and behind it.
unfoldable pub load_entry : ℕ → Config → List ℕ → Option (List ℕ) → Loaded
load_entry line c front none = refused (no_equals line)
load_entry line c front (some behind) = load_value line c (trim front) (trim behind)

-- A line with its comment and its blanks taken off.
unfoldable pub load_text : ℕ → Config → List ℕ → Loaded
load_text line c [] = ok c
load_text line c (x ∷ s) = load_entry line c (split_at b'=' (x ∷ s)).0 (split_at b'=' (x ∷ s)).1

-- One round of the `while` loop, on what `fgets` read.
unfoldable pub load_line : ℕ → Config → List ℕ → Loaded
load_line line c text = load_text line c (trim (strip_comment (c_string text)))

-- `fgets`: up to `room` bytes, the line end included; and what is left of the file.
unfoldable pub next_line : ℕ → List ℕ → List ℕ × List ℕ
next_line zero s = ([], s)
next_line (suc room) [] = ([], [])
next_line (suc room) (c ∷ s) =
    let r = next_line room s in if c == b'\n' then (c ∷ [], s) else (c ∷ r.0, r.1)

-- The lines that `fgets` reads into a buffer of `SITE_CONF_MAX_LINE`; each takes a byte at least.
unfoldable pub file_lines : ℕ → List ℕ → List (List ℕ)
unfolding next_line
file_lines zero s = []
file_lines (suc fuel) [] = []
file_lines (suc fuel) (c ∷ s) = let r = next_line 511 (c ∷ s) in r.0 ∷ file_lines fuel r.1

-- The `while` loop, by the number of the last line.
unfoldable pub load_lines : ℕ → Config → List (List ℕ) → Loaded
load_lines line c [] = ok c
load_lines line c (text ∷ rest) =
    load_line (line + 1) c text >>= λ c'. load_lines (line + 1) c' rest

-- `site_config_load`
unfoldable pub load : Option (List ℕ) → Loaded
load none = no_file
load (some file) = load_lines 0 defaults (file_lines (length file) file)
