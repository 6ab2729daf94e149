-- ===== src/Sni/Hello.antt =====
-- The ClientHello walk of common/sni_relay.c: the checks that `sni_find_split` and
-- `sni_shift_case` both make before their extension loops, and the functions themselves.
-- `hs` is the handshake message, so `hs_len` is its length and `body[p]` is `hs[4 + p]`.
use raise_my_freedom.Common.{
  ℕ, zero, suc, ◌+◌, ◌-◌, ◌*◌, ◌/◌, ◌%◌, true, false, ◌&&◌, List, ltb, leb, ◌==◌, if◌then◌else◌,
  length, set, Scan, fault, stop, ok, ◌>>=◌, ◌>>◌, guard, at, be16, max,
}

-- Where the extension block lies, as offsets into the body.
pub record Block : Type 0 where
  pub body_len : ℕ
  pub first : ℕ
  pub limit : ℕ

-- `(hs[1] << 16) | (hs[2] << 8) | hs[3]`
unfoldable pub be24 : List ℕ → ℕ → Scan ℕ
be24 p i = do a ← at p i; r ← be16 p (i + 1); ok (a * 65536 + r)

-- `if (p >= n) return; len = body[p]; p += 1 + len;`
unfoldable pub skip8 : List ℕ → ℕ → ℕ → Scan ℕ
skip8 hs n p = do guard (ltb p n); len ← at hs (4 + p); ok (p + (1 + len))

-- `if (p + 2 > n) return; len = (body[p] << 8) | body[p + 1]; p += 2 + len;`
unfoldable pub skip16 : List ℕ → ℕ → ℕ → Scan ℕ
skip16 hs n p = do guard (leb (p + 2) n); len ← be16 hs (4 + p); ok (p + (2 + len))

-- The length checks on the handshake header: the length of the body.
unfoldable pub find_body : List ℕ → Scan ℕ
unfolding be24
find_body hs = do
  guard (leb 46 (length hs))
  kind ← at hs 0
  guard (kind == 0x01)
  body_len ← be24 hs 1
  guard (body_len + 4 == length hs && leb 38 body_len)
  ok body_len

-- From the first check to the start of the extension loop.
unfoldable pub find_block : List ℕ → Scan Block
unfolding find_body skip8 skip16
find_block hs = do
  body_len ← find_body hs
  p1 ← skip8 hs body_len (2 + 32)
  p2 ← skip16 hs body_len p1
  p3 ← skip8 hs body_len p2
  guard (leb (p3 + 2) body_len)
  ext_total ← be16 hs (4 + p3)
  guard (leb (p3 + 2 + ext_total) body_len)
  ok (record { body_len = body_len; first = p3 + 2; limit = p3 + 2 + ext_total })

-- The test of a server_name extension in `sni_find_split`: the cut, when the name gives one.
unfoldable pub cut_in_name : ℕ → ℕ → ℕ → ℕ → Scan ℕ
cut_in_name hs_len body_len name_off nlen =
    let cut = 4 + name_off + max 1 (nlen / 2) in
    if ltb 0 nlen
      && leb nlen 253
      && leb (name_off + nlen) body_len
      && ltb 8 cut
      && ltb (cut + 1) hs_len
    then ok cut
    else stop

-- The `while` loop of `sni_find_split`; each round moves `p` on by 4 at least.
unfoldable pub split_loop : ℕ → List ℕ → Block → ℕ → Scan ℕ
unfolding cut_in_name
split_loop zero hs b p = fault
split_loop (suc fuel) hs b p = elim (leb (p + 4) b.limit) [
  | false ↦ stop
  | true ↦ do
    et ← be16 hs (4 + p)
    el ← be16 hs (4 + (p + 2))
    guard (leb (p + 4 + el) b.limit)
    elim (et == 0x0000 && leb 5 el) [
      | false ↦ split_loop fuel hs b (p + 4 + el)
      | true ↦ do
        nlen ← be16 hs (4 + (p + 4) + 3)
        elim (cut_in_name (length hs) b.body_len (p + 4 + 5) nlen) [
          | ok cut ↦ ok cut
          | _ ↦ split_loop fuel hs b (p + 4 + el)
        ]
    ]
]

-- `sni_find_split`; `stop` is the answer -1.
unfoldable pub find_split : List ℕ → Scan ℕ
unfolding find_block split_loop
find_split hs = do b ← find_block hs; split_loop (length hs) hs b b.first

-- `(c >= 'a' && c <= 'z') ? (unsigned char)(c - 32) : (unsigned char)(c + 32)`
unfoldable pub shift_byte : ℕ → ℕ
shift_byte c = if leb b'a' c && leb c b'z' then c - 32 else (c + 32) % 256

-- The `while` loop of `sni_shift_case`: the buffer after it.
unfoldable pub shift_loop : ℕ → List ℕ → Block → ℕ → Scan (List ℕ)
unfolding shift_byte
shift_loop zero hs b p = fault
shift_loop (suc fuel) hs b p = elim (leb (p + 4) b.limit) [
  | false ↦ stop
  | true ↦ do
    et ← be16 hs (4 + p)
    el ← be16 hs (4 + (p + 2))
    guard (leb (p + 4 + el) b.limit)
    elim (et == 0x0000 && leb 5 el) [
      | false ↦ shift_loop fuel hs b (p + 4 + el)
      | true ↦ do
        nlen ← be16 hs (4 + (p + 4) + 3)
        guard (ltb 0 nlen && leb (p + 4 + 5 + nlen) b.body_len)
        c ← at hs (4 + (p + 4 + 5))
        ok (set hs (4 + (p + 4 + 5)) (shift_byte c))
    ]
]

-- `sni_shift_case`; `stop` leaves the buffer as it is.
unfoldable pub shift_case : List ℕ → Scan (List ℕ)
unfolding find_block shift_loop
shift_case hs = do b ← find_block hs; shift_loop (length hs) hs b b.first
