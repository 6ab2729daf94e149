-- ===== src/Sni/Upstream.antt =====
-- How common/sni_relay.c chooses the upstream of a connection: `connect_upstream` and what it
-- gathers its candidates with. Addresses are numbers; `cands` is the list of candidates.
pub mod Allowed
use raise_my_freedom.Common.{
  ℕ, zero, suc, ◌+◌, ◌<◌, ◌≤◌, ◌≡◌, refl, Bool, true, false, not, ◌&&◌, Option, none, some, List,
  [], ◌∷◌, ◌++◌, arith, ltb, leb, ◌==◌, if◌then◌else◌, length, drop,
}

-- What the relay calls: `inet_pton`, `inet_ntop`, the module's test of an address, the resolvers,
-- `getaddrinfo`, and whether `connect_one` succeeds in the first or the second round.
pub record World : Type 0 where
  pub parse : List ℕ → Option ℕ
  pub print : ℕ → List ℕ
  pub validates : List ℕ → Bool
  pub doh : List ℕ → Option (List ℕ)
  pub udp : List ℕ → List ℕ → Option (List ℕ)
  pub lookup : List ℕ → List ℕ
  pub connects : ℕ → ℕ → Bool

-- The relay's settings and the page that its processes share: none where there is no page.
pub record Relay : Type 0 where
  pub last_good : Option (List ℕ)
  pub dns1 : List ℕ
  pub dns2 : List ℕ
  pub fallbacks : List (List ℕ)

-- `cands[8]`
abbrev pub max_cands : ℕ
max_cands = 8

unfoldable pub relay_ip_allowed : World → List ℕ → Bool
relay_ip_allowed w ip = elim (w.parse ip) [ none ↦ false | some a ↦ w.validates ip ]

unfoldable pub is_candidate : ℕ → List ℕ → Bool
is_candidate a [] = false
is_candidate a (c ∷ cands) = if c == a then true else is_candidate a cands

-- `add_unique`: the candidates afterwards, and whether the address was added.
unfoldable pub add_unique : List ℕ → ℕ → List ℕ × Bool
add_unique cands a =
    if leb max_cands (length cands)
    then (cands, false)
    else if is_candidate a cands
    then (cands, false)
    else (cands ++ (a ∷ []), true)

unfoldable pub add_ip_candidate : World → List ℕ → List ℕ → List ℕ × Bool
add_ip_candidate w cands ip =
    if relay_ip_allowed w ip
    then elim (w.parse ip) [ none ↦ (cands, false) | some a ↦ add_unique cands a ]
    else (cands, false)

-- A resolver's answer, if it gave one.
unfoldable pub add_answer : World → List ℕ → Option (List ℕ) → List ℕ × Bool
add_answer w cands none = (cands, false)
add_answer w cands (some ip) = add_ip_candidate w cands ip

-- The loops over the fallback addresses and over what `getaddrinfo` found.
unfoldable pub add_all : World → List ℕ → List (List ℕ) → List ℕ
add_all w cands [] = cands
add_all w cands (ip ∷ ips) =
    let rest = add_all w (add_ip_candidate w cands ip).0 ips in
    if ltb (length cands) max_cands then rest else cands

unfoldable pub add_found : World → List ℕ → List ℕ → List ℕ
add_found w cands [] = cands
add_found w cands (a ∷ found) =
    let rest = add_found w (add_ip_candidate w cands (w.print a)).0 found in
    if ltb (length cands) max_cands then rest else cands

-- The loop that connects: the first candidate that answers.
unfoldable pub connect_first : World → ℕ → List ℕ → Option ℕ
connect_first w round [] = none
connect_first w round (a ∷ cands) =
    if w.connects round a then some a else connect_first w round cands

-- The candidates of the first round, and the flags `have_orig` and `have_doh`.
pub record Gathered : Type 0 where
  pub cands : List ℕ
  pub have_orig : Bool
  pub have_doh : Bool

-- What stands in the page, if anything does.
abbrev pub remembered : Relay → Option (List ℕ)
remembered relay = elim relay.last_good [ some (c ∷ s) ↦ some (c ∷ s) | _ ↦ none ]

-- The write to the page, where there is one.
abbrev pub remember : World → Relay → ℕ → Relay
remember w relay a = elim relay.last_good [
  | none ↦ relay
  | some old ↦ record relay { last_good = some (w.print a) }
]

unfoldable pub gather : World → Relay → Option ℕ → Option (List ℕ) → Gathered
unfolding add_ip_candidate add_answer add_all
gather w relay orig sni =
    let good = add_answer w [] (remembered relay) in
    let first = add_answer w good.0 (elim orig [ none ↦ none | some a ↦ some (w.print a) ]) in
    let doh = add_answer w first.0 (elim sni [ none ↦ none | some name ↦ w.doh name ]) in
    record { cands = add_all w doh.0 relay.fallbacks; have_orig = first.1; have_doh = doh.1 }

-- The second round's candidates for the name: two more resolvers, and the system's if DoH gave none.
unfoldable pub gather_more : World → Relay → Gathered → List ℕ → List ℕ
unfolding add_ip_candidate add_answer add_found
gather_more w relay g name =
    let second =
      if ltb (length g.cands) max_cands
      then (add_answer w g.cands (w.udp relay.dns1 name)).0
      else g.cands in
    let third =
      if ltb (length second) max_cands
      then (add_answer w second (w.udp relay.dns2 name)).0
      else second in
    if g.have_doh
    then (if g.have_orig then drop 1 third else third)
    else add_found w third (w.lookup name)

-- `connect_upstream`: the address connected to, if any, and the relay afterwards. A name that is
-- missing or empty is `none`.
unfoldable pub connect_upstream : World → Relay → Option ℕ → Option (List ℕ) → Option ℕ × Relay
unfolding gather gather_more connect_first
connect_upstream w relay orig sni =
    let g = gather w relay orig sni in
    let second : Option ℕ = elim sni [
      | none ↦ none
      | some name ↦ connect_first w 1 (gather_more w relay g name)
    ] in
    elim (connect_first w 0 g.cands) [
      | some a ↦ (some a, remember w relay a)
      | none ↦ elim second [ some a ↦ (some a, remember w relay a) | none ↦ (none, relay) ]
    ]
