-- ===== src/Netfilter/Pattern.antt =====
-- `nf_wire_hex_pattern` of netfilter/netfilter_linux.c: the hex text of a name's labels.
pub mod Wire
use raise_my_freedom.Common.{
  ℕ, zero, suc, ◌+◌, ◌-◌, ◌*◌, ◌/◌, ◌%◌, ◌&&◌, Option, none, some, List, [], ◌∷◌, ◌++◌, ltb, leb,
  if◌then◌else◌, length, Scan, fault, stop, ok, ◌>>=◌, ◌>>◌, guard,
}
use raise_my_freedom.Dns.Query.{split_label}

-- A digit of `%02X`.
abbrev pub hex_digit : ℕ → ℕ
hex_digit d = if ltb d 10 then b'0' + d else b'A' + (d - 10)

-- `%02X` of a byte.
abbrev pub hex2 : ℕ → List ℕ
hex2 b = hex_digit (b / 16) ∷ hex_digit (b % 16) ∷ []

-- The inner loop; `used` is what is written so far, `stop` the answer -1.
unfoldable pub hex_bytes : List ℕ → ℕ → ℕ → Scan (List ℕ)
hex_bytes [] used size = ok []
hex_bytes (b ∷ bs) used size = do
  guard (ltb (used + 2) size)
  more ← hex_bytes bs (used + 2) size
  ok (hex2 b ++ more)

-- The `while` loop; each round takes a byte of the name at least.
unfoldable pub hex_labels : ℕ → List ℕ → ℕ → ℕ → Scan (List ℕ)
unfolding split_label hex_bytes
hex_labels zero s used size = fault
hex_labels (suc fuel) [] used size = ok []
hex_labels (suc fuel) (c ∷ s) used size = do
  let parts = split_label (c ∷ s)
  let len = length parts.0
  guard (leb 1 len && leb len 63)
  guard (ltb (used + 2) size)
  bytes ← hex_bytes parts.0 (used + 2) size
  elim parts.1 [
    | none ↦ ok (hex2 len ++ bytes)
    | some rest ↦ do
      more ← hex_labels fuel rest (used + 2 + 2 * len) size
      ok (hex2 len ++ (bytes ++ more))
  ]

-- `nf_wire_hex_pattern` into a buffer of `size` bytes.
unfoldable pub nf_wire_hex_pattern : List ℕ → ℕ → Scan (List ℕ)
unfolding hex_labels
nf_wire_hex_pattern domain size = do
  guard (ltb 0 (length domain) && ltb 0 size)
  hex_labels (suc (length domain)) domain 0 size
