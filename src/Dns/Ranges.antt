-- ===== src/Dns/Ranges.antt =====
-- The networks that `dns_ip_is_cloudflare` and `dns_ip_is_google` of dns/dns_resolve.c know.
use raise_my_freedom.Common.{
  ℕ, Bool, true, false, Option, none, some, List, [], ◌∷◌, ◌==◌, if◌then◌else◌,
}
use Prim.Native.Nat.{bit_and}

-- The loop over a table of networks and masks.
unfoldable pub in_ranges : List (ℕ × ℕ) → ℕ → Bool
in_ranges [] ip = false
in_ranges ((net, mask) ∷ ranges) ip =
    let rest = in_ranges ranges ip in if bit_and ip mask == net then true else rest

abbrev cloudflare : List (ℕ × ℕ)
cloudflare =
    (0x68100000, 0xFFF00000)
    ∷ (0xAC400000, 0xFFF80000)
    ∷ (0xAC420000, 0xFFFF0000)
    ∷ (0xAC430000, 0xFFFF0000)
    ∷ []

abbrev google : List (ℕ × ℕ)
google = (0x08080000, 0xFFFF0000) ∷ (0x8EFA0000, 0xFFFE0000) ∷ (0xD8EF0000, 0xFFFF0000) ∷ []

-- Both functions, with `inet_pton` as `parse`; an empty text is `[]`.
unfoldable pub is_in : List (ℕ × ℕ) → (List ℕ → Option ℕ) → List ℕ → Bool
unfolding in_ranges
is_in ranges parse [] = false
is_in ranges parse (c ∷ text) = elim (parse (c ∷ text)) [
  | none ↦ false
  | some ip ↦ in_ranges ranges ip
]

unfoldable pub dns_ip_is_cloudflare : (List ℕ → Option ℕ) → List ℕ → Bool
unfolding is_in
dns_ip_is_cloudflare = is_in cloudflare

unfoldable pub dns_ip_is_google : (List ℕ → Option ℕ) → List ℕ → Bool
unfolding is_in
dns_ip_is_google = is_in google
