-- ===== src/Desync/Peers.antt =====
-- The table of busiest /16 networks in desync/desync.c: `note_peer` and `desync_top_peers`.
-- Addresses are numbers in host order, so a /16 is the address with its low sixteen bits cleared.
pub mod Table
use raise_my_freedom.Common.{
  ℕ, zero, suc, ◌+◌, ◌-◌, ◌*◌, ◌/◌, ◌%◌, ◌^◌, ◌≤◌, ◌<◌, Bool, true, false, ◌&&◌, List, [], ◌∷◌,
  ◌++◌, ltb, leb, ◌==◌, if◌then◌else◌, length, take, drop, set, min,
}

pub record Peer : Type 0 where
  pub net : ℕ
  pub pkts : ℕ

-- `DESYNC_TOP_N`
abbrev pub top_n : ℕ
top_n = 8

-- The address with its last two octets cleared.
abbrev pub net_of : ℕ → ℕ
net_of addr = addr - addr % 65536

unfoldable pub is_listed : ℕ → List Peer → Bool
is_listed n [] = false
is_listed n (p ∷ ps) = if p.net == n then true else is_listed n ps

-- The first loop, which counts a packet of a listed network; `pkts` is an unsigned long long.
unfoldable pub count_listed : ℕ → List Peer → List Peer
count_listed n [] = []
count_listed n (p ∷ ps) =
    if p.net == n then record p { pkts = (p.pkts + 1) % 2 ^ 64 } ∷ ps else p ∷ count_listed n ps

-- The second loop: the first place of the smallest count, from place `i` on.
unfoldable pub least_from : ℕ → ℕ → ℕ → List Peer → ℕ × ℕ
least_from i least pos [] = (least, pos)
least_from i least pos (p ∷ ps) =
    if ltb p.pkts least then least_from (i + 1) p.pkts i ps else least_from (i + 1) least pos ps

-- A full table: the new network takes the place of the smallest, if the test lets it.
unfoldable pub evict : ℕ → List Peer → List Peer
unfolding least_from
evict n [] = []
evict n (p ∷ ps) =
    let (least, pos) = least_from 1 p.pkts 0 ps in
    if ltb least (p.pkts + 1) then set (p ∷ ps) pos (record { net = n; pkts = 1 }) else p ∷ ps

unfoldable pub note_peer : ℕ → List Peer → List Peer
unfolding is_listed count_listed evict
note_peer addr top =
    let n = net_of addr in
    if is_listed n top
    then count_listed n top
    else if ltb (length top) top_n
    then top ++ (record { net = n; pkts = 1 } ∷ [])
    else evict n top

-- The inner loop of `desync_top_peers`: the first entry of the biggest count and its place.
unfoldable pub most_from : ℕ → Peer → ℕ → List Peer → Peer × ℕ
most_from i best pos [] = (best, pos)
most_from i best pos (p ∷ ps) =
    if ltb best.pkts p.pkts then most_from (i + 1) p i ps else most_from (i + 1) best pos ps

abbrev rest_of : List Peer → List Peer
rest_of [] = []
rest_of (p ∷ ps) = ps

-- The outer loop over the first `n` entries: the biggest is exchanged with the first.
unfoldable pub sort_rows : ℕ → List Peer → List Peer
unfolding most_from
sort_rows zero l = l
sort_rows (suc n) [] = []
sort_rows (suc n) (p ∷ ps) =
    let m = most_from 1 p 0 ps in m.0 ∷ sort_rows n (rest_of (set (p ∷ ps) m.1 p))

-- `desync_top_peers`: the rows that it gives, and the table, whose first rows it leaves sorted.
unfoldable pub top_peers : List Peer → ℕ → List Peer × List Peer
unfolding sort_rows
top_peers top limit =
    let n = min (length top) limit in
    let rows = sort_rows n (take n top) in
    if limit == 0 then ([], top) else (rows, rows ++ drop n top)
