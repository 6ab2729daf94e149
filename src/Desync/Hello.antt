-- ===== src/Desync/Hello.antt =====
-- The ClientHello code of desync/desync.c: `find_sni`, `build_fake_hello` and
-- `is_client_hello_start`.
pub mod RoundTrip
use raise_my_freedom.Common.{
  ℕ, zero, suc, ◌+◌, ◌-◌, ◌*◌, ◌/◌, ◌%◌, ◌^◌, ◌≤◌, ◌<◌, Bool, true, false, ◌&&◌, ◌||◌, List, [],
  ◌∷◌, ◌++◌, ltb, leb, ◌==◌, if◌then◌else◌, length, replicate, min, Scan, fault, stop, ok, ◌>>=◌,
  ◌>>◌, guard, at, be16,
}

-- Where the server name lies: its offset and `*out_len`.
pub record Name : Type 0 where
  pub offset : ℕ
  pub size : ℕ

-- The `while` loop of `find_sni`; `stop` is the answer 0. Each round moves `off` on by 4 at least.
unfoldable pub sni_loop : ℕ → List ℕ → ℕ → ℕ → Scan Name
sni_loop zero p limit off = fault
sni_loop (suc fuel) p limit off = elim (leb (off + 4) limit) [
  | false ↦ stop
  | true ↦ do
    et ← be16 p off
    el ← be16 p (off + 2)
    let body = off + 4
    guard (leb (body + el) limit)
    elim (et == 0x0000 && leb 4 el) [
      | false ↦ sni_loop fuel p limit (body + el)
      | true ↦ do
        nlen ← be16 p (body + 1)
        elim (ltb 0 nlen && leb (body + 3 + nlen) (body + el)) [
          | true ↦ ok (record { offset = body + 3; size = nlen })
          | false ↦ sni_loop fuel p limit (body + el)
        ]
    ]
]

-- `find_sni` on the `len` bytes of `p`.
unfoldable pub find_sni : List ℕ → Scan Name
unfolding sni_loop
find_sni p = do
  guard (leb 9 (length p))
  kind ← at p 0
  major ← at p 1
  guard (kind == 0x16 && major == 0x03)
  message ← at p 5
  guard (message == 0x01)
  let off = 9 + 32
  guard (ltb off (length p))
  session ← at p off
  let off1 = off + (1 + session)
  guard (leb (off1 + 2) (length p))
  ciphers ← be16 p off1
  let off2 = off1 + (2 + ciphers)
  guard (ltb off2 (length p))
  compression ← at p off2
  let off3 = off2 + (1 + compression)
  guard (leb (off3 + 2) (length p))
  ext_total ← be16 p off3
  let start = off3 + 2
  sni_loop (length p) p (min (start + ext_total) (length p)) start

abbrev high : ℕ → ℕ
high n = n / 256 % 256

abbrev low : ℕ → ℕ
low n = n % 256

-- The handshake body of the fake, from its type byte on.
unfoldable pub fake_body : List ℕ → List ℕ
fake_body sni =
    let nlen = length sni in
    let ext_len = 7 + nlen in
    let body_len = 1 + 3 + 32 + 1 + 2 + 2 + 1 + 1 + 2 + ext_len in
    0x01
    ∷ ((body_len - 4) / 65536 % 256)
    ∷ high (body_len - 4)
    ∷ low (body_len - 4)
    ∷ (replicate 32 0x03
        ++ (0x00
            ∷ 0x00
            ∷ 0x02
            ∷ 0x13
            ∷ 0x01
            ∷ 0x01
            ∷ 0x00
            ∷ high ext_len
            ∷ low ext_len
            ∷ 0x00
            ∷ 0x00
            ∷ high (nlen + 3)
            ∷ low (nlen + 3)
            ∷ 0x00
            ∷ high nlen
            ∷ low nlen
            ∷ sni))

-- `build_fake_hello`; `stop` is the answer -1, and `total` is the length of the result.
unfoldable pub build_fake_hello : List ℕ → ℕ → Scan (List ℕ)
unfolding fake_body
build_fake_hello sni cap = do
  let nlen = length sni
  guard (leb 1 nlen && leb nlen 250)
  let body_len = 1 + 3 + 32 + 1 + 2 + 2 + 1 + 1 + 2 + (7 + nlen)
  guard (leb (5 + body_len) cap)
  ok (0x16 ∷ 0x03 ∷ 0x01 ∷ high body_len ∷ low body_len ∷ fake_body sni)

-- `is_client_hello_start`, which looks at six bytes.
unfoldable pub is_client_hello_start : List ℕ → Scan Bool
is_client_hello_start p = elim (leb 6 (length p)) [
  | false ↦ ok false
  | true ↦ do
    kind ← at p 0
    major ← at p 1
    message ← at p 5
    ok (kind == 0x16 && major == 0x03 && message == 0x01)
]
