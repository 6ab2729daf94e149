-- ===== src/Dns/Transport/Agree.antt =====
-- The two DoH resolvers agree.
use raise_my_freedom.Common.{
  ℕ, ◌<◌, ◌≡◌, refl, sym, Bool, true, false, Option, none, some, List, [], ◌∷◌, ◌++◌, arith, length,
  Scan, fault, stop, ok, ◌>>=◌, Ensures, returned,
}
use raise_my_freedom.Dns.Answer.{Address, parse_a_list, parse_a, first_of_list}
use raise_my_freedom.Dns.Answer.Lists.{IsAddressList, parse_a_list-IsAddressList}
use raise_my_freedom.Dns.Transport.{
  hosts, is_answer, try_hosts, encoded_query, doh_resolve_a_multi, doh_resolve_a,
}

-- A reader that is another one's answer with `pick` after it, on every answer that is not empty.
picks_head :
    (m : Scan (List Address))
    → Ensures (λ l. (0 < length l) × IsAddressList 8 l) m
    → (later : Scan (List Address)) (later' : Scan Address) → (later >>= first_of_list) ≡ later'
    → ((let s : Scan (List Address) = elim m [ ok a ↦ ok a | stop ↦ later | fault ↦ fault ] in s)
        >>= first_of_list)
      ≡ (let s : Scan Address = elim (m >>= first_of_list) [
        | ok a ↦ ok a
        | stop ↦ later'
        | fault ↦ fault
      ] in
          s)
picks_head fault safe later later' e = elim safe [ ]
picks_head stop safe later later' e = e
picks_head (ok []) (returned h) later later' e = absurd (omega (arith, h.0))
picks_head (ok (a ∷ l)) safe later later' e = refl

answer_branch :
    (b : Scan Bool) (m : Scan (List Address))
    → Ensures (λ l. (0 < length l) × IsAddressList 8 l) m
    → (later : Scan (List Address)) (later' : Scan Address) → (later >>= first_of_list) ≡ later'
    → ((let s : Scan (List Address) = elim b [
      | ok true ↦ elim m [ ok a ↦ ok a | stop ↦ later | fault ↦ fault ]
      | ok false ↦ later
      | stop ↦ later
      | fault ↦ fault
    ] in
          s)
        >>= first_of_list)
      ≡ (let s : Scan Address = elim b [
        | ok true ↦ elim (m >>= first_of_list) [ ok a ↦ ok a | stop ↦ later' | fault ↦ fault ]
        | ok false ↦ later'
        | stop ↦ later'
        | fault ↦ fault
      ] in
          s)
answer_branch fault m safe later later' e = refl
answer_branch stop m safe later later' e = e
answer_branch (ok false) m safe later later' e = e
answer_branch (ok true) m safe later later' e = picks_head m safe later later' e

file_branch :
    (file : Option (List ℕ)) (later : Scan (List Address)) (later' : Scan Address)
    → (later >>= first_of_list) ≡ later'
    → ((let s : Scan (List Address) = elim file [
      | none ↦ later
      | some resp ↦ elim (is_answer resp) [
        | ok true ↦ elim (parse_a_list resp 8) [ ok a ↦ ok a | stop ↦ later | fault ↦ fault ]
        | ok false ↦ later
        | stop ↦ later
        | fault ↦ fault
      ]
    ] in
          s)
        >>= first_of_list)
      ≡ (let s : Scan Address = elim file [
        | none ↦ later'
        | some resp ↦ elim (is_answer resp) [
          | ok true ↦ elim (parse_a resp) [ ok a ↦ ok a | stop ↦ later' | fault ↦ fault ]
          | ok false ↦ later'
          | stop ↦ later'
          | fault ↦ fault
        ]
      ] in
          s)
unfolding parse_a
file_branch none later later' e = e
file_branch (some resp) later later' e =
    answer_branch (is_answer resp) (parse_a_list resp 8) (parse_a_list-IsAddressList resp 8) later
      later' e

try_hosts-agree :
    (fetch : List ℕ → List ℕ → Option (List ℕ)) (b64 : List ℕ) (hs : List (List ℕ × List ℕ))
    → (try_hosts fetch (λ resp. parse_a_list resp 8) b64 hs >>= first_of_list)
      ≡ try_hosts fetch parse_a b64 hs
unfolding try_hosts
try_hosts-agree fetch b64 [] = refl
try_hosts-agree fetch b64 ((url, resolve) ∷ hs) =
    file_branch (fetch (url ++ b64) resolve) _ _ (try_hosts-agree fetch b64 hs)

-- For every domain and whatever the servers answer: `doh_resolve_a` gives the first address of the
-- list that `doh_resolve_a_multi` gives with room for eight, and fails where that one fails.
pub doh_resolve_a-doh_resolve_a_multi :
    (fetch : List ℕ → List ℕ → Option (List ℕ)) (domain : List ℕ)
    → doh_resolve_a fetch domain ≡ (doh_resolve_a_multi fetch domain 8 >>= first_of_list)
unfolding doh_resolve_a doh_resolve_a_multi
doh_resolve_a-doh_resolve_a_multi fetch domain = by_query (encoded_query domain)
  where
    by_query :
        (q : Scan (List ℕ))
        → (q >>= λ b64. try_hosts fetch parse_a b64 hosts) ≡ (
            (q >>= λ b64. try_hosts fetch (λ resp. parse_a_list resp 8) b64 hosts)
            >>= first_of_list)
    by_query fault = refl
    by_query stop = refl
    by_query (ok b64) = sym (try_hosts-agree fetch b64 hosts)
