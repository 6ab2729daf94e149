-- ===== src/Dns/Query.antt =====
-- DNS queries: `build_query` of dns/doh_resolve.c, the same code at the head of
-- `dns_resolve_udp` in dns/dns_resolve.c, and `b64url_encode`.
use raise_my_freedom.Common.{
  ℕ, zero, suc, ◌+◌, ◌*◌, ◌/◌, ◌%◌, ◌&&◌, Option, none, some, List, [], ◌∷◌, ◌++◌, ltb, leb, ◌==◌,
  if◌then◌else◌, length, get_or, Scan, fault, ok, ◌>>=◌, ◌>>◌, guard,
}
use Prim.Native.Char.{code}
use Prim.Native.String.{String}

-- The text in front of the first dot, and behind it if there is one: `strchr(s, '.')`.
unfoldable pub split_label : List ℕ → List ℕ × Option (List ℕ)
split_label [] = ([], none)
split_label (c ∷ s) = let r = split_label s in if c == b'.' then ([], some s) else (c ∷ r.0, r.1)

-- The `while` loop, from `written = p - pkt` on; each round takes a byte of the name at least.
unfoldable pub labels : ℕ → List ℕ → ℕ → ℕ → Scan (List ℕ)
unfolding split_label
labels zero s written room = fault
labels (suc fuel) [] written room = ok []
labels (suc fuel) (c ∷ s) written room =
    let parts = split_label (c ∷ s) in
    let ll = length parts.0 in
    guard (leb 1 ll && leb ll 63 && ltb (written + ll + 6) room) >> elim parts.1 [
      | none ↦ ok (ll ∷ parts.0)
      | some rest ↦ do more ← labels fuel rest (written + 1 + ll) room; ok (ll ∷ (parts.0 ++ more))
    ]

-- The twelve header bytes: id 0xABCD, recursion desired, one question.
abbrev pub query_header : List ℕ
query_header = 0xAB ∷ 0xCD ∷ 0x01 ∷ 0x00 ∷ 0x00 ∷ 0x01 ∷ 0 ∷ 0 ∷ 0 ∷ 0 ∷ 0 ∷ 0 ∷ []

-- `build_query`; `stop` is the answer -1.
unfoldable pub build_query : List ℕ → ℕ → Scan (List ℕ)
unfolding labels
build_query domain room = do
  guard (leb 32 room)
  name ← labels (suc (length domain)) domain 12 room
  ok (query_header ++ (name ++ (0 ∷ 0 ∷ 1 ∷ 0 ∷ 1 ∷ [])))

-- The packet of `dns_resolve_udp`, whose buffer has 512 bytes.
unfoldable pub udp_query : List ℕ → Scan (List ℕ)
unfolding labels
udp_query domain = do
  name ← labels (suc (length domain)) domain 12 512
  ok (query_header ++ (name ++ (0 ∷ 0 ∷ 1 ∷ 0 ∷ 1 ∷ [])))

abbrev pub codes : String → List ℕ
codes String.[] = []
codes (String.◌∷◌ c s) = code c ∷ codes s

abbrev pub alphabet : List ℕ
alphabet = codes "ABCDEFGHIJKLMNOPQRSTUVWXYZabcdefghijklmnopqrstuvwxyz0123456789-_"

abbrev pub symbol : ℕ → ℕ
symbol v = get_or alphabet (v % 64) 0

-- `b64url_encode` from `out[o]` on, `room` being `outcap`.
unfoldable pub b64url_encode : List ℕ → ℕ → ℕ → List ℕ
b64url_encode [] o room = []
b64url_encode (a ∷ []) o room =
    let v = a * 65536 in
    if ltb (o + 4) room then symbol (v / 262144) ∷ symbol (v / 4096) ∷ [] else []
b64url_encode (a ∷ b ∷ []) o room =
    let v = a * 65536 + b * 256 in
    if ltb (o + 4) room then symbol (v / 262144) ∷ symbol (v / 4096) ∷ symbol (v / 64) ∷ [] else []
b64url_encode (a ∷ b ∷ c ∷ rest) o room =
    let v = a * 65536 + b * 256 + c in
    let more = b64url_encode rest (o + 4) room in
    if ltb (o + 4) room
    then symbol (v / 262144) ∷ symbol (v / 4096) ∷ symbol (v / 64) ∷ symbol v ∷ more
    else []
