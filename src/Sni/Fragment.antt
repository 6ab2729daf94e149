-- ===== src/Sni/Fragment.antt =====
-- `sni_build_fragmented_ch` of common/sni_relay.c: the handshake as several TLS records, and
-- `extract_client_hello`, which joins the records of a ClientHello back into a handshake.
pub mod Total
pub mod Read
pub mod RoundTrip
use raise_my_freedom.Common.{
  ℕ, zero, suc, ◌+◌, ◌-◌, ◌*◌, ◌/◌, ◌%◌, ◌≤◌, ◌<◌, ◌≡◌, refl, Bool, true, false, not, ◌&&◌, ◌||◌,
  List, [], ◌∷◌, ◌++◌, ltb, leb, ◌==◌, if◌then◌else◌, length, take, drop, Scan, fault, stop, ok,
  ◌>>=◌, ◌>>◌, guard, at, be16, min, max,
}
use raise_my_freedom.Sni.Hello.{find_split, be24}

-- A handshake record: 0x16, version 3.1, the length in two bytes, the payload.
unfoldable pub tls_record : List ℕ → List ℕ
tls_record payload =
    0x16 ∷ 0x03 ∷ 0x01 ∷ (length payload / 256) % 256 ∷ length payload % 256 ∷ payload

-- The `for` loop, by the parts that follow the one at hand (`left` in the source): `rest` is the
-- handshake from `pos` on, `cut` the length of the part, `total` what is written so far.
unfoldable pub fragments : ℕ → List ℕ → ℕ → ℕ → ℕ → Scan (List ℕ)
unfolding tls_record
fragments zero rest cut total out_cap = do
  guard (leb 1 (length rest))
  guard (leb (total + 5 + length rest) out_cap)
  ok (tls_record rest)
fragments (suc left) rest cut total out_cap = do
  guard (leb 1 cut && leb cut (length rest))
  guard (leb (total + 5 + cut) out_cap)
  let next = max 1 ((length rest - cut) / suc left)
  more ← fragments left (drop cut rest) next (total + 5 + cut) out_cap
  ok (tls_record (take cut rest) ++ more)

-- How many parts: the setting, at most 16, at most one for eight bytes, at least two.
unfoldable pub part_count : ℕ → ℕ → ℕ
part_count multi_parts hs_len =
    max 2 (min (min (if leb 2 multi_parts then multi_parts else 2) 16) (hs_len / 8))

-- The first boundary: at the SNI name, or at an even share.
unfoldable pub first_cut : List ℕ → ℕ → ℕ
first_cut hs parts =
    let found : ℕ = elim (find_split hs) [ ok cut ↦ cut | _ ↦ length hs / parts ] in
    min (max 1 found) (length hs - 1)

-- `sni_build_fragmented_ch`; `stop` is the answer -1, and `total` is the length of the result.
unfoldable pub build_fragmented : ℕ → List ℕ → ℕ → Scan (List ℕ)
unfolding fragments part_count first_cut
build_fragmented multi_parts hs out_cap = do
  guard (leb 46 (length hs))
  let parts = part_count multi_parts (length hs)
  fragments (parts - 1) hs (first_cut hs parts) 0 out_cap

-- `*first_seg_out`: the length of the first TCP segment.
unfoldable pub first_segment : ℕ → ℕ → ℕ
first_segment setting first =
    let wanted = if ltb 0 setting then setting else 20 in
    max 1 (if leb (5 + first) wanted then 5 + first - 1 else wanted)

-- What `extract_client_hello` answers, 0 and -1 apart: the handshake and the bytes consumed.
pub data Joined : Type 0 where
  bad : Joined
  need_more : Joined
  whole : List ℕ → ℕ → Joined

-- The length that the first record's payload announces.
unfoldable pub announced : List ℕ → ℕ → Scan ℕ
unfolding be24
announced payload hs_cap = do
  guard (leb 4 (length payload))
  kind ← at payload 0
  n ← be24 payload 1
  guard (kind == 0x01 && leb (4 + n) hs_cap)
  ok (4 + n)

-- `need` as the rest of the round sees it.
unfoldable pub needed : Scan ℕ → List ℕ → ℕ → Scan ℕ
unfolding announced
needed (ok n) payload hs_cap = ok n
needed _ payload hs_cap = announced payload hs_cap

-- The `while` loop, on what is left of the buffer: `need` is none before the first record.
unfoldable pub join_loop : ℕ → List ℕ → ℕ → Scan ℕ → List ℕ → ℕ → Joined
unfolding needed
join_loop (suc fuel) (kind ∷ v1 ∷ v2 ∷ hi ∷ lo ∷ body) hs_cap need got off =
    let rlen = hi * 256 + lo in
    let rest = λ (n : ℕ).
      join_loop fuel (drop rlen body) hs_cap (ok n) (got ++ take (n - length got) (take rlen body))
        (off + 5 + rlen) in
    if not (kind == 0x16) || rlen == 0
    then bad
    else if ltb (length body) rlen
    then need_more
    else elim (needed need (take rlen body) hs_cap) [
      | ok n ↦
          if leb n (length (got ++ take (n - length got) (take rlen body)))
          then whole (got ++ take (n - length got) (take rlen body)) (off + 5 + rlen)
          else rest n
      | _ ↦ bad
    ]
join_loop _ _ hs_cap need got off = need_more

-- `extract_client_hello` on the `len` bytes read so far.
unfoldable pub extract_client_hello : List ℕ → ℕ → Joined
unfolding join_loop
extract_client_hello buf hs_cap = join_loop (length buf) buf hs_cap stop [] 0
