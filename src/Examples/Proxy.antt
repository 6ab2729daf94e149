-- ===== src/Examples/Proxy.antt =====
-- Runs of the DNS proxy.
use raise_my_freedom.Common.{
  ℕ, ◌≡◌, refl, true, false, Option, none, some, List, [], ◌∷◌, arith, Ensures, Scan, ok, stop,
}
use raise_my_freedom.SiteConfig.Text.{str_case_eq}
use raise_my_freedom.Proxy.Hosts.{Host, load_hosts, searched, first_host, find_host}
use raise_my_freedom.Proxy.Hosts.Lookup.{find_host-exact}
use raise_my_freedom.Proxy.Answer.{Network, get_qname, skip_qname, build_a_resp_multi, proxy_reply}
use raise_my_freedom.Proxy.Answer.Announced.{IsAnswer, announced, build_a_resp_multi-IsAnswer}

-- Hosts a.b and .b.
abbrev plain : Host
plain = record { domain = b'a' ∷ b'.' ∷ b'b' ∷ []; ip = b'1' ∷ [] }

abbrev dotted : Host
dotted = record { domain = b'.' ∷ b'b' ∷ []; ip = b'2' ∷ [] }

-- "A.b.", and "x.a.b", which is below a listed name.
abbrev same_name : List ℕ
same_name = b'A' ∷ b'.' ∷ b'b' ∷ b'.' ∷ []

abbrev below : List ℕ
below = b'x' ∷ b'.' ∷ b'a' ∷ b'.' ∷ b'b' ∷ []

find_same : find_host (plain ∷ []) same_name ≡ some (b'1' ∷ [])
unfolding find_host
find_same = refl

find_below : find_host (plain ∷ []) below ≡ none
unfolding find_host
find_below = refl

find_dotted : find_host (plain ∷ dotted ∷ []) below ≡ some (b'2' ∷ [])
unfolding find_host
find_dotted = refl

read_line :
    load_hosts
      (λ t. some t)
      ((b'#' ∷ []) ∷ (b'a' ∷ b'.' ∷ b'b' ∷ b' ' ∷ b' ' ∷ b'1' ∷ b'\n' ∷ []) ∷ [])
      []
    ≡ plain ∷ []
unfolding load_hosts
read_line = refl

find_host-exact_example :
    find_host (plain ∷ []) below ≡ first_host (str_case_eq (searched below)) (plain ∷ [])
find_host-exact_example = find_host-exact (plain ∷ []) below (omega arith, tt)

-- The query for the address of "a".
abbrev query : List ℕ
query = 1 ∷ 2 ∷ 1 ∷ 0 ∷ 0 ∷ 1 ∷ 0 ∷ 0 ∷ 0 ∷ 0 ∷ 0 ∷ 0 ∷ 1 ∷ b'a' ∷ 0 ∷ 0 ∷ 1 ∷ 0 ∷ 1 ∷ []

abbrev addresses : List (Option (List ℕ))
addresses = some (1 ∷ 2 ∷ 3 ∷ 4 ∷ []) ∷ none ∷ some (5 ∷ 6 ∷ 7 ∷ 8 ∷ []) ∷ []

name_of : get_qname query 256 ≡ ok (b'a' ∷ [])
unfolding get_qname
name_of = refl

end_of : skip_qname query ≡ ok 15
unfolding skip_qname
end_of = refl

abbrev count_of : Scan (List ℕ) → ℕ
count_of (ok r) = announced r
count_of _ = 0

two_announced : count_of (build_a_resp_multi query 1024 addresses) ≡ 2
unfolding build_a_resp_multi
two_announced = refl

abbrev network : Network
network = record {
  pton = λ t. some (9 ∷ 9 ∷ 9 ∷ 9 ∷ []);
  doh = λ t. [];
  upstream = λ q. none;
  fallback = λ q. some (7 ∷ []);
}

-- Without a listed host and an upstream the second server answers; without room nobody does.
forwarded_run : proxy_reply network [] true query ≡ ok (7 ∷ [])
unfolding proxy_reply
forwarded_run = refl

full_run : proxy_reply network [] false query ≡ stop
unfolding proxy_reply
full_run = refl

build_a_resp_multi-IsAnswer_example :
    Ensures (IsAnswer query 1024 addresses) (build_a_resp_multi query 1024 addresses)
build_a_resp_multi-IsAnswer_example =
    build_a_resp_multi-IsAnswer query 1024 addresses (omega arith) (refl, (tt, (refl, tt)))
