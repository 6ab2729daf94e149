-- ===== src/Examples/Bypass.antt =====
-- Runs of the bypass of a site.
use raise_my_freedom.Common.{
  ℕ, ◌≡◌, refl, true, false, Option, none, some, List, [], ◌∷◌, ◌++◌, arith, length, ltb, ◌==◌,
  if◌then◌else◌, ok, Bool-cases, inl, inr, ltb→lt,
}
use raise_my_freedom.Dns.Query.{codes}
use raise_my_freedom.Dns.Answer.{parse_a}
use raise_my_freedom.SiteConfig.Text.{c_string, str_case_eq, str_eq}
use raise_my_freedom.Bypass.Pins.{Pin, strip_dots, normalize_domain, first_pin, lookup_pin}
use raise_my_freedom.Bypass.Pins.Match.{Serves, lookup_pin-Serves}
use raise_my_freedom.Bypass.Reply.{extract_loop, extract_qname, skip_loop, skip_qname, dns_reply}
use raise_my_freedom.Bypass.Reply.RoundTrip.{parse_a-dns_reply}
use raise_my_freedom.Bypass.PinFile.{pins_load, pins_save, others, pin_file_replace}
use raise_my_freedom.Bypass.PinFile.RoundTrip.{IsStorable, pins_load-pin_file_replace}
use raise_my_freedom.Bypass.Choose.{
  own, World, Site, site_ip_allowed, preset_of, previous_of, is_candidate, add_answer,
  add_fallbacks, candidates, select, choose, gather_pins,
}
use raise_my_freedom.Bypass.Choose.Allowed.{TakesShort}
use raise_my_freedom.Bypass.Start.{
  System, State, token_bytes, chain_token, acceptable, previous_pins, site_bypass_start,
}
use raise_my_freedom.Bypass.Start.Outcome.{
  IsConsistent, Outcome, IsUnpinned, site_bypass_start-Outcome, site_bypass_start-IsUnpinned,
}

abbrev a_io : List ℕ
a_io = codes "a.io"

abbrev zone_pin : Pin
zone_pin = record { domain = codes "io"; ip = codes "7" }

abbrev a_pin : Pin
a_pin = record { domain = a_io; ip = codes "9" }

abbrev pins : List Pin
pins = zone_pin ∷ a_pin ∷ []

lookup_pin-Serves_example : Serves pins a_io (lookup_pin pins a_io)
lookup_pin-Serves_example = lookup_pin-Serves pins a_io

-- A query for "a.io" of type A.
abbrev query : List ℕ
query =
    0x12 ∷ 0x34 ∷ 1 ∷ 0 ∷ 0 ∷ 1 ∷ 0 ∷ 0 ∷ 0 ∷ 0 ∷ 0 ∷ 0 ∷ 1 ∷ b'a' ∷ 2 ∷ b'i' ∷ b'o' ∷ 0 ∷ 0 ∷ 1 ∷ 0
    ∷ 1 ∷ []

abbrev pton : List ℕ → Option (List ℕ)
pton t = some (1 ∷ 2 ∷ 3 ∷ 4 ∷ [])

abbrev forward : List ℕ → Option (List ℕ)
forward q = none

extract_qname-query : extract_qname query 256 ≡ ok a_io
unfolding extract_qname extract_loop
extract_qname-query = refl

skip_qname-query : skip_qname query ≡ ok 18
unfolding skip_qname skip_loop
skip_qname-query = refl

lookup_pin-a_io : lookup_pin pins (c_string a_io) ≡ some (codes "9")
unfolding lookup_pin first_pin str_case_eq c_string
lookup_pin-a_io = refl

parse_a-dns_reply_example :
    (reply : List ℕ) × (dns_reply pins pton forward query ≡ ok reply)
    × (parse_a reply ≡ ok (1 ∷ 2 ∷ 3 ∷ 4 ∷ []))
parse_a-dns_reply_example =
    parse_a-dns_reply pins pton forward query a_io (codes "9") 1 2 3 4 18 extract_qname-query
      skip_qname-query (omega arith) (omega arith) refl lookup_pin-a_io refl

-- Addresses are any texts below 64 characters. They answer while one is chosen, and no longer.
abbrev world : World
world = record {
  pton = λ t. if ltb (length t) 64 then some t else none;
  validates = λ t. true;
  tcp = λ phase ip. phase == 0;
  cert = λ phase ip domain. own;
  sni = λ try ip domain. true;
  doh = λ domain. codes "9" ∷ [];
  udp = λ server domain. none;
}

world-TakesShort : TakesShort world
world-TakesShort t a e = elim (Bool-cases (ltb (length t) 64)) [
  | inl k ↦ ltb→lt (length t) 64 k
  | inr k ↦ absurd (cc (rw k at e))
]

abbrev site : Site
site = record {
  name = codes "s";
  chain = codes "RMF";
  domains = a_io ∷ [];
  presets = [];
  fallback_ips = [];
  primary = codes "1";
  fallback = codes "8";
  use_relay = none;
  dns_port = 5353;
  relay_port = 18444;
}

abbrev system : System
system = record { file_opens = true; dns_starts = true; relay_starts = true; root = true }

abbrev fresh : State
fresh = record {
  active = false;
  relay_on = false;
  relay_runs = false;
  dns_runs = false;
  rules = false;
  pins = [];
  served = [];
  file = none;
}

site-acceptable : acceptable site ≡ true
unfolding acceptable chain_token token_bytes
site-acceptable = refl

fresh-IsConsistent : IsConsistent fresh
fresh-IsConsistent e = record {
  inactive = refl;
  no_relay = refl;
  no_answerer = refl;
  no_rules = refl;
}

-- The same, but the addresses go on answering.
abbrev answering : World
answering = record world { tcp = λ phase ip. true }

answering-TakesShort : TakesShort answering
answering-TakesShort = world-TakesShort

site_bypass_start-Outcome_example :
    Outcome true answering
      (gather_pins answering site (previous_pins site none) (a_io ∷ []) [] 0).0
      (site_bypass_start system answering site fresh)
site_bypass_start-Outcome_example =
    site_bypass_start-Outcome system answering site fresh answering-TakesShort site-acceptable
      fresh-IsConsistent

-- That start keeps its pin, and writes it to the file.
answering_keeps : (site_bypass_start system answering site fresh).1.pins ≡ a_pin ∷ []
unfolding site_bypass_start acceptable chain_token token_bytes gather_pins normalize_domain
    strip_dots choose preset_of previous_of candidates add_answer is_candidate add_fallbacks select
    site_ip_allowed first_pin str_eq
answering_keeps = refl

gather_pins-a_io :
    gather_pins world site (previous_pins site none) (a_io ∷ []) [] 0 ≡ (a_pin ∷ [], 0)
unfolding previous_pins pins_load gather_pins normalize_domain strip_dots choose preset_of
    previous_of candidates add_answer is_candidate add_fallbacks select site_ip_allowed first_pin
    str_eq
gather_pins-a_io = refl

site_bypass_start-IsUnpinned_example :
    IsUnpinned (a_pin ∷ []) (site_bypass_start system world site fresh)
site_bypass_start-IsUnpinned_example =
    site_bypass_start-IsUnpinned system world site fresh a_pin [] 0 site-acceptable refl refl
      gather_pins-a_io (λ ip. refl)

zone_pin-IsStorable : IsStorable zone_pin
zone_pin-IsStorable = record {
  domain_there = omega arith;
  domain_fits = omega arith;
  domain_word = ((refl, λ e. omega (arith, e)), ((refl, λ e. omega (arith, e)), tt));
  ip_there = omega arith;
  ip_fits = omega arith;
  ip_word = ((refl, λ e. omega (arith, e)), tt);
}

abbrev new_pin : Pin
new_pin = record { domain = codes "io"; ip = codes "8" }

new_pin-IsStorable : IsStorable new_pin
new_pin-IsStorable = record {
  domain_there = omega arith;
  domain_fits = omega arith;
  domain_word = ((refl, λ e. omega (arith, e)), ((refl, λ e. omega (arith, e)), tt));
  ip_there = omega arith;
  ip_fits = omega arith;
  ip_word = ((refl, λ e. omega (arith, e)), tt);
}

pins_load-pin_file_replace_example :
    pins_load (some (pin_file_replace (some (pins_save (zone_pin ∷ []))) new_pin))
    ≡ others (codes "io") (zone_pin ∷ []) ++ (new_pin ∷ [])
pins_load-pin_file_replace_example =
    pins_load-pin_file_replace (zone_pin ∷ []) new_pin (zone_pin-IsStorable, tt) new_pin-IsStorable
      (omega arith)
