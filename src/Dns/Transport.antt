-- ===== src/Dns/Transport.antt =====
-- `doh_resolve_a_multi`, `doh_resolve_a` and `dns_resolve_udp` around the readers of answers. What
-- the network answers is a parameter: `fetch url resolve` is what curl leaves in the file, at most
-- 2048 bytes, and `ask server query` is what the name server sends back, at most 512 bytes.
pub mod Agree
use raise_my_freedom.Common.{
  ℕ, zero, suc, ◌+◌, ◌≤◌, ◌≡◌, Bool, true, false, ◌&&◌, Option, none, some, List, [], ◌∷◌, ◌++◌,
  ltb, leb, ◌==◌, if◌then◌else◌, length, Scan, fault, stop, ok, ◌>>=◌, ◌>>◌, guard, at,
}
use raise_my_freedom.Dns.Query.{codes, build_query, udp_query, b64url_encode}
use raise_my_freedom.Dns.Answer.{Address, parse_a_list, parse_a, parse_udp}

-- `hosts[]`
abbrev pub hosts : List (List ℕ × List ℕ)
hosts =
    (codes "https://cloudflare-dns.com/dns-query?dns=", codes "cloudflare-dns.com:443:1.1.1.1")
    ∷ (codes "https://dns.google/dns-query?dns=", codes "dns.google:443:8.8.8.8")
    ∷ []

-- A file of twelve bytes at least that begins with the query's id.
unfoldable pub is_answer : List ℕ → Scan Bool
is_answer resp = elim (leb 12 (length resp)) [
  | false ↦ ok false
  | true ↦ do id1 ← at resp 0; id2 ← at resp 1; ok (id1 == 0xAB && id2 == 0xCD)
]

-- The loop over the hosts: the first answer that `parse` accepts.
unfoldable pub try_hosts {ℓ} :
    {A : Type ℓ}
    → (List ℕ → List ℕ → Option (List ℕ))
    → (List ℕ → Scan A)
    → List ℕ
    → List (List ℕ × List ℕ)
    → Scan A
try_hosts fetch parse b64 [] = stop
try_hosts fetch parse b64 ((url, resolve) ∷ rest) =
    let later = try_hosts fetch parse b64 rest in
    elim (fetch (url ++ b64) resolve) [
      | none ↦ later
      | some resp ↦ elim (is_answer resp) [
        | ok true ↦ elim (parse resp) [ ok a ↦ ok a | stop ↦ later | fault ↦ fault ]
        | ok false ↦ later
        | stop ↦ later
        | fault ↦ fault
      ]
    ]

-- The query in base64url, in its buffer of 768 bytes.
unfoldable pub encoded_query : List ℕ → Scan (List ℕ)
encoded_query domain = do q ← build_query domain 512; ok (b64url_encode q 0 768)

-- `doh_resolve_a_multi` with room for `limit` addresses.
unfoldable pub doh_resolve_a_multi :
    (List ℕ → List ℕ → Option (List ℕ)) → List ℕ → ℕ → Scan (List Address)
unfolding encoded_query
doh_resolve_a_multi fetch domain limit = do
  guard (ltb 0 limit)
  b64 ← encoded_query domain
  try_hosts fetch (λ resp. parse_a_list resp limit) b64 hosts

-- `doh_resolve_a`
unfoldable pub doh_resolve_a : (List ℕ → List ℕ → Option (List ℕ)) → List ℕ → Scan Address
unfolding encoded_query
doh_resolve_a fetch domain = do b64 ← encoded_query domain; try_hosts fetch parse_a b64 hosts

-- `dns_resolve_udp`; no answer within the time is `none`.
unfoldable pub dns_resolve_udp :
    (List ℕ → List ℕ → Option (List ℕ)) → List ℕ → List ℕ → Scan Address
dns_resolve_udp ask server domain = do
  q ← udp_query domain
  elim (ask server q) [ none ↦ stop | some resp ↦ parse_udp resp ]
