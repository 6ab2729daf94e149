-- ===== src/Sni/Name.antt =====
-- `sni_extract_name` of common/sni_relay.c, the name that the relay resolves.
use raise_my_freedom.Common.{
  ℕ, zero, suc, ◌+◌, ◌-◌, true, false, ◌&&◌, List, ltb, leb, ◌==◌, if◌then◌else◌, length, take,
  drop, Scan, fault, stop, ok, ◌>>=◌, ◌>>◌, guard, at, be16,
}

-- The `while` loop; `room` is the size of the buffer for the name, `stop` the answer 0.
unfoldable pub name_loop : ℕ → List ℕ → ℕ → ℕ → ℕ → Scan (List ℕ)
name_loop zero hs limit room q = fault
name_loop (suc fuel) hs limit room q = elim (leb (q + 4) limit) [
  | false ↦ stop
  | true ↦ do
    et ← be16 hs (4 + q)
    el ← be16 hs (4 + (q + 2))
    elim (et == 0x0000 && leb 5 el) [
      | false ↦ name_loop fuel hs limit room (q + 4 + el)
      | true ↦ do
        nlen ← be16 hs (4 + (q + 4) + 3)
        guard (ltb 0 nlen && ltb nlen room && leb (q + 4 + 5 + nlen) limit)
        if leb (4 + (q + 4 + 5) + nlen) (length hs)
            then ok (take nlen (drop (4 + (q + 4 + 5)) hs))
            else fault
    ]
]

-- `sni_extract_name`
unfoldable pub extract_name : List ℕ → ℕ → Scan (List ℕ)
unfolding name_loop
extract_name hs room = do
  guard (ltb 0 room && leb 46 (length hs))
  kind ← at hs 0
  guard (kind == 0x01)
  sid ← at hs (4 + (2 + 32))
  let q1 = 2 + 32 + (1 + sid)
  cs ← be16 hs (4 + q1)
  let q2 = q1 + (2 + cs)
  comp ← at hs (4 + q2)
  let q3 = q2 + (1 + comp)
  guard (leb (q3 + 2) (length hs - 4))
  ext_total ← be16 hs (4 + q3)
  name_loop (length hs) hs (q3 + 2 + ext_total) room (q3 + 2)
