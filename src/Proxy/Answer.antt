-- ===== src/Proxy/Answer.antt =====
-- The answers of proxy/proxy.c: the name asked for, the answers that are built, and what
-- `run_proxy` sends back for one query.
pub mod Announced
use raise_my_freedom.Common.{
  ℕ, zero, suc, ◌+◌, ◌-◌, ◌*◌, ◌/◌, ◌%◌, min, Bool, true, false, not, ◌&&◌, ◌||◌, Option, none,
  some, List, [], ◌∷◌, ◌++◌, ltb, leb, ◌==◌, if◌then◌else◌, length, take, drop, Scan, fault, stop,
  ok, ◌>>=◌, ◌>>◌, guard, at, be16,
}
use raise_my_freedom.Dns.Answer.{is_pointer}
use raise_my_freedom.Proxy.Hosts.{Host, find_host}

-- The loop of `get_qname`: the name so far, and the rest of it.
unfoldable pub qname_loop : ℕ → List ℕ → ℕ → ℕ → List ℕ → Scan (List ℕ)
qname_loop zero pkt pos size out = fault
qname_loop (suc fuel) pkt pos size out = elim (ltb pos (length pkt)) [
  | false ↦ ok out
  | true ↦ do
    label ← at pkt pos
    let dotted = if ltb 0 (length out) then out ++ (b'.' ∷ []) else out
    let n = min label (min (length pkt - (pos + 1)) (size - 1 - length dotted))
    elim (label == 0 || not (ltb (length out) (size - 1)) || is_pointer label) [
      | true ↦ ok out
      | false ↦ qname_loop fuel pkt (pos + 1 + n) size (dotted ++ take n (drop (pos + 1) pkt))
    ]
]

unfoldable pub get_qname : List ℕ → ℕ → Scan (List ℕ)
unfolding qname_loop
get_qname pkt size = qname_loop (length pkt) pkt 12 size []

-- The loop of `skip_qname`: where it ends. A pointer ends it behind its second byte.
unfoldable pub skip_loop : ℕ → List ℕ → ℕ → Scan ℕ
skip_loop zero pkt pos = fault
skip_loop (suc fuel) pkt pos = elim (ltb pos (length pkt)) [
  | false ↦ ok pos
  | true ↦ do
    label ← at pkt pos
    elim (label == 0) [
      | true ↦ ok pos
      | false ↦ elim (is_pointer label) [
        | true ↦ ok (pos + 2)
        | false ↦ skip_loop fuel pkt (pos + 1 + label)
      ]
    ]
]

-- `skip_qname`, with the step over the zero byte that comes behind a pointer too.
unfoldable pub skip_qname : List ℕ → Scan ℕ
unfolding skip_loop
skip_qname pkt = do
  pos ← skip_loop (length pkt) pkt 12
  ok (if ltb pos (length pkt) then pos + 1 else pos)

-- The header, with the query's id and counts of questions, and the question.
abbrev pub answer_head : List ℕ → ℕ → ℕ → List ℕ
answer_head query section answers =
    take 2 query
    ++ (0x81
        ∷ 0x80
        ∷ (take 2 (drop 4 query)
            ++ (answers / 256
                ∷ answers % 256
                ∷ 0
                ∷ 0
                ∷ 0
                ∷ 0
                ∷ take (section - 12) (drop 12 query))))

-- An answer with the name of the question.
abbrev pub address_record : List ℕ → List ℕ
address_record a = 0xC0 ∷ 0x0C ∷ 0 ∷ 1 ∷ 0 ∷ 1 ∷ 0 ∷ 0 ∷ 0 ∷ 0x78 ∷ 0 ∷ 4 ∷ a

-- `build_a_resp`; `address` is what `inet_pton` makes of the text.
unfoldable pub build_a_resp : List ℕ → ℕ → Option (List ℕ) → Scan (List ℕ)
unfolding skip_qname
build_a_resp query size address = do
  qpos ← skip_qname query
  guard (leb (qpos + 4) (length query) && leb (qpos + 4 + 24) size)
  elim address [ none ↦ stop | some a ↦ ok (answer_head query (qpos + 4) 1 ++ address_record a) ]

-- The records for the texts that `inet_pton` takes.
unfoldable pub records : List (Option (List ℕ)) → List ℕ
records [] = []
records (none ∷ l) = records l
records (some a ∷ l) = address_record a ++ records l

-- `build_a_resp_multi`
unfoldable pub build_a_resp_multi : List ℕ → ℕ → List (Option (List ℕ)) → Scan (List ℕ)
unfolding skip_qname records
build_a_resp_multi query size addresses = do
  qpos ← skip_qname query
  guard (leb (qpos + 4) (length query) && ltb 0 (length addresses) && leb (length addresses) 8)
  guard (leb (qpos + 4 + 16 * length addresses) size)
  guard (ltb 0 (length (records addresses) / 16))
  ok (answer_head query (qpos + 4) (length (records addresses) / 16) ++ records addresses)

-- What `run_proxy` calls: `inet_pton`, the DoH resolver, and `forward_q` to the two servers.
pub record Network : Type 0 where
  pub pton : List ℕ → Option (List ℕ)
  pub doh : List ℕ → List (List ℕ)
  pub upstream : List ℕ → Option (List ℕ)
  pub fallback : List ℕ → Option (List ℕ)

-- The child's last resorts, `up` and `fb`; an empty answer counts as none.
unfoldable pub forwarded : Network → List ℕ → Scan (List ℕ)
forwarded w query = elim (w.upstream query) [
  | some (c ∷ r) ↦ ok (c ∷ r)
  | _ ↦ elim (w.fallback query) [ some (c ∷ r) ↦ ok (c ∷ r) | _ ↦ stop ]
]

-- What comes of a way of answering: its answer, or the next way's.
abbrev pub or_else : Scan (List ℕ) → Scan (List ℕ) → Scan (List ℕ)
or_else fault next = fault
or_else stop next = next
or_else (ok r) next = ok r

abbrev pub qtype_of : List ℕ → ℕ → Scan ℕ
qtype_of query qpos = elim (ltb (qpos + 1) (length query)) [ true ↦ be16 query qpos | false ↦ ok 0 ]

-- The child process.
unfoldable pub child_reply : Network → List ℕ → ℕ → List ℕ → Scan (List ℕ)
unfolding build_a_resp_multi forwarded
child_reply w domain qtype query =
    or_else
      (if qtype == 1
        then build_a_resp_multi query 1024 (map_pton (take 8 (w.doh domain)))
        else stop)
      (forwarded w query)
  where
    map_pton : List (List ℕ) → List (Option (List ℕ))
    map_pton [] = []
    map_pton (t ∷ l) = w.pton t ∷ map_pton l

-- A round of `run_proxy` behind `recvfrom`: a listed host is answered at once, anything else by a
-- child, if there is `room` for one and it is made.
unfoldable pub proxy_reply : Network → List Host → Bool → List ℕ → Scan (List ℕ)
unfolding get_qname skip_qname build_a_resp child_reply find_host
proxy_reply w hosts room query = do
  guard (leb 12 (length query))
  domain ← get_qname query 256
  qpos ← skip_qname query
  qtype ← qtype_of query qpos
  let child = if room then child_reply w domain qtype query else stop
  elim (if qtype == 1 then find_host hosts domain else none) [
    | some ip ↦ or_else (build_a_resp query 1024 (w.pton ip)) child
    | none ↦ child
  ]
