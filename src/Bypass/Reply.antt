-- ===== src/Bypass/Reply.antt =====
-- The DNS answers of common/site_bypass.c: the name asked for, the answer with a pinned address,
-- the empty answer, and what `dns_child` sends back for one query.
pub mod RoundTrip
use raise_my_freedom.Common.{
  ℕ, zero, suc, ◌+◌, ◌-◌, ◌*◌, Bool, true, false, not, ◌&&◌, ◌||◌, Option, none, some, List, [],
  ◌∷◌, ◌++◌, ltb, leb, ◌==◌, if◌then◌else◌, length, take, drop, Scan, fault, stop, ok, ◌>>=◌, ◌>>◌,
  guard, at, be16,
}
use raise_my_freedom.Dns.Answer.{is_pointer}
use raise_my_freedom.SiteConfig.Text.{c_string}
use raise_my_freedom.Bypass.Pins.{Pin, lookup_pin}

-- The loop of `extract_qname`: the name so far and the rest of it. A round with `pos` at the end or
-- at a zero byte ends it.
unfoldable pub extract_loop : ℕ → List ℕ → ℕ → ℕ → List ℕ → Scan (List ℕ)
extract_loop zero pkt pos size out = fault
extract_loop (suc fuel) pkt pos size out = elim (ltb pos (length pkt)) [
  | false ↦ stop
  | true ↦ do
    label ← at pkt pos
    elim (label == 0) [
      | true ↦ ok out
      | false ↦ do
        guard (
            leb label 63 && leb (pos + 1 + label) (length pkt) && ltb (length out + label + 2) size)
        let dotted = if ltb 0 (length out) then out ++ (b'.' ∷ []) else out
        extract_loop fuel pkt (pos + 1 + label) size (dotted ++ take label (drop (pos + 1) pkt))
    ]
]

-- `extract_qname`: the bytes written in front of the NUL, which may hold another one.
unfoldable pub extract_qname : List ℕ → ℕ → Scan (List ℕ)
unfolding extract_loop
extract_qname pkt size = do
  guard (leb 13 (length pkt) && leb 2 size)
  extract_loop (length pkt) pkt 12 size []

-- The loop of `skip_qname`; a pointer ends the name.
unfoldable pub skip_loop : ℕ → List ℕ → ℕ → Scan ℕ
skip_loop zero pkt pos = fault
skip_loop (suc fuel) pkt pos = elim (ltb pos (length pkt)) [
  | false ↦ stop
  | true ↦ do
    label ← at pkt pos
    elim (label == 0) [
      | true ↦ ok (pos + 1)
      | false ↦ elim (is_pointer label) [
        | true ↦ guard (ltb (pos + 2) (length pkt)) >> ok (pos + 2)
        | false ↦
            guard (leb label 63 && leb (pos + 1 + label) (length pkt))
            >> skip_loop fuel pkt (pos + 1 + label)
      ]
    ]
]

unfoldable pub skip_qname : List ℕ → Scan ℕ
unfolding skip_loop
skip_qname pkt = do guard (leb 13 (length pkt)); skip_loop (length pkt) pkt 12

-- The header of an answer: the query's id, and one question and `answers` answers.
abbrev reply_header : List ℕ → ℕ → List ℕ
reply_header query answers =
    take 2 query ++ (0x81 ∷ 0x80 ∷ 0 ∷ 1 ∷ 0 ∷ answers ∷ 0 ∷ 0 ∷ 0 ∷ 0 ∷ [])

-- `build_a_response`; `address` is what `inet_pton` makes of the pinned text.
unfoldable pub build_a_response : List ℕ → ℕ → Option (List ℕ) → Scan (List ℕ)
unfolding skip_qname
build_a_response query size address = do
  qname_end ← skip_qname query
  guard (leb (qname_end + 4) (length query) && leb (qname_end + 4 + 24) size)
  elim address [
    | none ↦ stop
    | some a ↦ ok (
        reply_header query 1
        ++ (take (qname_end + 4 - 12) (drop 12 query)
            ++ (0xC0 ∷ 0x0C ∷ 0 ∷ 1 ∷ 0 ∷ 1 ∷ 0 ∷ 0 ∷ 0 ∷ 120 ∷ 0 ∷ 4 ∷ a)))
  ]

unfoldable pub build_empty_response : List ℕ → ℕ → Scan (List ℕ)
unfolding skip_qname
build_empty_response query size = do
  qname_end ← skip_qname query
  guard (leb (qname_end + 4) (length query) && leb (qname_end + 4) size)
  ok (reply_header query 0 ++ take (qname_end + 4 - 12) (drop 12 query))

-- One round of `dns_child` behind `recvfrom`: what is sent back, if anything. The name ends at its
-- first NUL. `pton` is `inet_pton`
-- and `forward` is `forward_query`.
unfoldable pub dns_reply :
    List Pin → (List ℕ → Option (List ℕ)) → (List ℕ → Option (List ℕ)) → List ℕ → Scan (List ℕ)
unfolding extract_qname build_a_response build_empty_response lookup_pin c_string
dns_reply pins pton forward query = do
  guard (leb 13 (length query))
  domain ← extract_qname query 256
  qname_end ← skip_qname query
  guard (ltb (qname_end + 1) (length query))
  qtype ← be16 query qname_end
  elim (lookup_pin pins (c_string domain)) [
    | some ip ↦
        if qtype == 1
        then build_a_response query 4096 (pton ip)
        else build_empty_response query 4096
    | none ↦ elim (forward query) [ some r ↦ ok r | none ↦ stop ]
  ]
