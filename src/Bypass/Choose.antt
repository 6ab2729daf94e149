-- ===== src/Bypass/Choose.antt =====
-- How `site_bypass_start` of common/site_bypass.c chooses an address for each domain, and which
-- pins `site_doctor` keeps.
pub mod Allowed
use raise_my_freedom.Common.{
  ℕ, zero, suc, ◌+◌, Bool, true, false, not, ◌&&◌, ◌||◌, Option, none, some, List, [], ◌∷◌, ◌++◌,
  ltb, leb, ◌==◌, if◌then◌else◌, length,
}
use raise_my_freedom.SiteConfig.Text.{str_case_eq, str_eq, copy}
use raise_my_freedom.Bypass.Pins.{Pin, first_pin, normalize_domain, max_site_domains}

-- What `site_probe_cert_ok` answers: 1, 0 and -1.
pub data Cert : Type 0 where
  own foreign silent : Cert

-- What the start asks the network and the libraries: `inet_pton`, the module's test of an address,
-- the probes (first while an address is chosen, then by the doctor) and the resolvers.
pub record World : Type 0 where
  pub pton : List ℕ → Option (List ℕ)
  pub validates : List ℕ → Bool
  pub tcp : ℕ → List ℕ → Bool
  pub cert : ℕ → List ℕ → List ℕ → Cert
  pub sni : ℕ → List ℕ → List ℕ → Bool
  pub doh : List ℕ → List (List ℕ)
  pub udp : List ℕ → List ℕ → Option (List ℕ)

-- `site_bypass_config_t`; `name` is empty where there is none, and `use_relay` is none for -1.
pub record Site : Type 0 where
  pub name : List ℕ
  pub chain : List ℕ
  pub domains : List (List ℕ)
  pub presets : List Pin
  pub fallback_ips : List (List ℕ)
  pub primary : List ℕ
  pub fallback : List ℕ
  pub use_relay : Option Bool
  pub dns_port : ℕ
  pub relay_port : ℕ

unfoldable pub site_ip_allowed : World → List ℕ → Bool
site_ip_allowed w ip = elim (w.pton ip) [ none ↦ false | some a ↦ w.validates ip ]

-- An address of the module's own table, if it is allowed.
unfoldable pub preset_of : World → List Pin → List ℕ → Option (List ℕ)
unfolding first_pin
preset_of w presets domain = elim (first_pin (λ d. str_case_eq d domain) presets) [
  | none ↦ none
  | some ip ↦ if site_ip_allowed w ip then some (copy 64 ip) else none
]

-- The address of the last run, if it still has the domain's certificate.
unfoldable pub previous_of : World → List Pin → List ℕ → Option (List ℕ)
unfolding first_pin site_ip_allowed
previous_of w prev domain = elim (first_pin (λ d. str_case_eq d domain) prev) [
  | none ↦ none
  | some ip ↦ elim (w.cert 0 ip domain) [
    | own ↦ if site_ip_allowed w ip && w.tcp 0 ip then some (copy 64 ip) else none
    | _ ↦ none
  ]
]

unfoldable pub is_candidate : List ℕ → List (List ℕ) → Bool
is_candidate ip [] = false
is_candidate ip (c ∷ cands) = str_eq c ip || is_candidate ip cands

-- A resolver's answer behind `cands[8]`, unless it is there already.
unfoldable pub add_answer : List (List ℕ) → Option (List ℕ) → List (List ℕ)
unfolding is_candidate
add_answer cands none = cands
add_answer cands (some ip) =
    if leb 8 (length cands) || is_candidate ip cands then cands else cands ++ (copy 64 ip ∷ [])

unfoldable pub add_fallbacks : List (List ℕ) → List (List ℕ) → List (List ℕ)
add_fallbacks cands [] = cands
add_fallbacks cands (ip ∷ ips) =
    let more = add_fallbacks (cands ++ (copy 64 ip ∷ [])) ips in
    if ltb (length cands) 8 then more else cands

unfoldable pub candidates : World → Site → List ℕ → List (List ℕ)
unfolding add_answer add_fallbacks
candidates w site domain =
    add_fallbacks
      (add_answer (add_answer (w.doh domain) (w.udp site.primary domain))
        (w.udp site.fallback domain))
      site.fallback_ips

abbrev is_own : Cert → Bool
is_own own = true
is_own _ = false

abbrev is_silent : Cert → Bool
is_silent silent = true
is_silent _ = false

abbrev pub is_foreign : Cert → Bool
is_foreign foreign = true
is_foreign _ = false

-- The loop over the candidates: the first with the domain's certificate, or else the first whose
-- handshake does not come about.
unfoldable pub select : World → List ℕ → List (List ℕ) → Option (List ℕ) → Option (List ℕ)
unfolding site_ip_allowed
select w domain [] blocked = blocked
select w domain (c ∷ cands) blocked =
    let reached = site_ip_allowed w c && w.tcp 0 c in
    let kept : Option (List ℕ) = elim blocked [
      | some b ↦ some b
      | none ↦ if reached && is_silent (w.cert 0 c domain) then some c else none
    ] in
    let rest = select w domain cands kept in
    if reached && is_own (w.cert 0 c domain) then some c else rest

-- The address for a domain, by the three ways in turn.
unfoldable pub choose : World → Site → List Pin → List ℕ → Option (List ℕ)
unfolding preset_of previous_of candidates select
choose w site prev domain = elim (preset_of w site.presets domain) [
  | some ip ↦ some ip
  | none ↦ elim (previous_of w prev domain) [
    | some ip ↦ some ip
    | none ↦ elim (select w domain (candidates w site domain) none) [
      | none ↦ none
      | some ip ↦ if site_ip_allowed w (copy 64 ip) then some (copy 64 ip) else none
    ]
  ]
]

-- The loop over the domains: `site_pins` and `g_blocked_domains`.
unfoldable pub gather_pins : World → Site → List Pin → List (List ℕ) → List Pin → ℕ → List Pin × ℕ
unfolding normalize_domain choose
gather_pins w site prev [] pins blocked = (pins, blocked)
gather_pins w site prev (d ∷ domains) pins blocked =
    let domain = normalize_domain d in
    let empty = length domain == 0 in
    let found = choose w site prev domain in
    let pins' : List Pin = elim found [
      | some ip ↦ (if empty then pins else pins ++ (record { domain = domain; ip = ip } ∷ []))
      | none ↦ pins
    ] in
    let blocked' : ℕ = elim found [
      | some ip ↦ blocked
      | none ↦ (if not empty && ltb blocked max_site_domains then blocked + 1 else blocked)
    ] in
    let rest = gather_pins w site prev domains pins' blocked' in
    if leb max_site_domains (length pins) then (pins, blocked) else rest

-- What the doctor's loop leaves: `kept_pins`, `tested` and `silent`.
pub record Examined : Type 0 where
  pub kept : List Pin
  pub tested : ℕ
  pub quiet : ℕ

-- The name is answered twice in a row.
abbrev pub answers_twice : World → Pin → Bool
answers_twice w p = w.sni 1 p.ip p.domain && w.sni 2 p.ip p.domain

unfoldable pub examine : World → List Pin → ℕ → ℕ → Examined
examine w [] tested quiet = record { kept = []; tested = tested; quiet = quiet }
examine w (p ∷ pins) tested quiet =
    let dropped = not (w.tcp 1 p.ip) || is_foreign (w.cert 1 p.ip p.domain) in
    let healthy = is_own (w.cert 1 p.ip p.domain) && answers_twice w p in
    let tested' = if not dropped && ltb tested 3 then tested + 1 else tested in
    let quiet' = if not dropped && ltb tested 3 && not healthy then quiet + 1 else quiet in
    let rest = examine w pins tested' quiet' in
    if dropped then rest else record rest { kept = p ∷ rest.kept }

-- `site_doctor`: whether the relay is needed, none for -1, and the pins that stay.
unfoldable pub site_doctor : World → Site → List Pin → ℕ → Option Bool × List Pin
unfolding examine
site_doctor w site [] blocked = (none, [])
site_doctor w site (p ∷ pins) blocked =
    let e = examine w (p ∷ pins) 0 0 in
    let quiet = if length e.kept == 0 then 0 else e.quiet in
    (some (elim site.use_relay [ some b ↦ b | none ↦ ltb 0 quiet || ltb 0 blocked ]), e.kept)
