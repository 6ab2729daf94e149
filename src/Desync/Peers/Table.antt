-- ===== src/Desync/Peers/Table.antt =====
-- The table of networks: its bound, its distinct rows, and what `note_peer` puts in it.
use raise_my_freedom.Common.{
  ℕ, zero, suc, ◌+◌, ◌≤◌, ◌<◌, ◌≡◌, ◌≢◌, refl, true, false, List, [], ◌∷◌, ◌++◌, arith, ltb, ◌==◌,
  if◌then◌else◌, length, set, length-append, length-set, Bool-cases, inl, inr, lt→ltb, ==_self,
}
use raise_my_freedom.Desync.Peers.{
  Peer, top_n, net_of, is_listed, count_listed, least_from, evict, note_peer,
}

-- No network has two rows.
abbrev pub Distinct : List Peer → Type 0
Distinct [] = Unit
Distinct (p ∷ ps) = (is_listed p.net ps ≡ false) × Distinct ps

count_listed-is_listed :
    (n m : ℕ) (ps : List Peer) → is_listed m (count_listed n ps) ≡ is_listed m ps
unfolding count_listed is_listed
count_listed-is_listed n m [] = refl
count_listed-is_listed n m (p ∷ ps) = ground (arith, count_listed-is_listed n m ps)

length-count_listed : (n : ℕ) (ps : List Peer) → length (count_listed n ps) ≡ length ps
unfolding count_listed
length-count_listed n [] = refl
length-count_listed n (p ∷ ps) = ground (arith, length-count_listed n ps)

count_listed-Distinct : (n : ℕ) (ps : List Peer) → Distinct ps → Distinct (count_listed n ps)
unfolding count_listed
count_listed-Distinct n [] d = tt
count_listed-Distinct n (p ∷ ps) (d, ds) =
    ground (arith, count_listed-is_listed n p.net ps, count_listed-Distinct n ps ds)

append-is_listed :
    (m : ℕ) (ps : List Peer) (q : Peer)
    → is_listed m (ps ++ (q ∷ [])) ≡ (if is_listed m ps then true else (q.net == m))
unfolding is_listed
append-is_listed m [] q = ground arith
append-is_listed m (p ∷ ps) q = ground (arith, append-is_listed m ps q)

append-Distinct :
    (ps : List Peer) (q : Peer)
    → Distinct ps
    → is_listed q.net ps ≡ false
    → Distinct (ps ++ (q ∷ []))
unfolding is_listed
append-Distinct [] q d h = (refl, tt)
append-Distinct (p ∷ ps) q (d, ds) h =
    ground (arith, append-is_listed p.net ps q, append-Distinct ps q ds)

set-is_listed :
    (m : ℕ) (ps : List Peer) (i : ℕ) (q : Peer)
    → is_listed m ps ≡ false
    → q.net ≢ m
    → is_listed m (set ps i q) ≡ false
unfolding is_listed
set-is_listed m [] i q h ne = refl
set-is_listed m (p ∷ ps) zero q h ne = ground arith
set-is_listed m (p ∷ ps) (suc i) q h ne = ground (arith, set-is_listed m ps i q)

set-Distinct :
    (ps : List Peer) (i : ℕ) (q : Peer)
    → Distinct ps
    → is_listed q.net ps ≡ false
    → Distinct (set ps i q)
unfolding is_listed
set-Distinct [] i q d h = tt
set-Distinct (p ∷ ps) zero q (d, ds) h = ground arith
set-Distinct (p ∷ ps) (suc i) q (d, ds) h =
    ground (arith, set-is_listed p.net ps i q d, set-Distinct ps i q ds)

set-listed :
    (ps : List Peer) (i : ℕ) (q : Peer) → i < length ps → is_listed q.net (set ps i q) ≡ true
unfolding is_listed
set-listed [] i q h = elim h [ ]
set-listed (p ∷ ps) zero q h = ground arith
set-listed (p ∷ ps) (suc i) q h = ground (arith, set-listed ps i q)

-- The place that the search gives is the one that it starts with, or one that it passes; the
-- count that it gives is no bigger than the one that it starts with.
least_from_bounds :
    (i least pos : ℕ) (ps : List Peer)
    → pos < i
    → ((least_from i least pos ps).1 < i + length ps) × ((least_from i least pos ps).0 ≤ least)
unfolding least_from
least_from_bounds i least pos [] h = (omega arith, omega arith)
least_from_bounds i least pos (p ∷ ps) h =
    ground (arith, least_from_bounds (i + 1) p.pkts i ps, least_from_bounds (i + 1) least pos ps)

-- At most eight rows, no two of one network.
pub record IsTable (top : List Peer) : Type 0 where
  pub short : length top ≤ top_n
  pub distinct : Distinct top

-- The guard of the replacement never fails: a full table always takes the new network in.
evict-set :
    (n : ℕ) (p : Peer) (ps : List Peer)
    → evict n (p ∷ ps) ≡ set (p ∷ ps) (least_from 1 p.pkts 0 ps).1 (record { net = n; pkts = 1 })
unfolding evict
evict-set n p ps = rw (
    lt→ltb (least_from 1 p.pkts 0 ps).0 (p.pkts + 1)
      (omega (arith, (least_from_bounds 1 p.pkts 0 ps (omega arith)).1)))

evict-IsTable :
    (n : ℕ) (top : List Peer)
    → IsTable top
    → is_listed n top ≡ false
    → length top ≢ 0
    → IsTable (evict n top) × (is_listed n (evict n top) ≡ true)
evict-IsTable n [] t h ne = absurd (ne refl)
evict-IsTable n (p ∷ ps) t h ne =
    let row : Peer = record { net = n; pkts = 1 } in
    let pos = (least_from 1 p.pkts 0 ps).1 in
    let inside = (least_from_bounds 1 p.pkts 0 ps (omega arith)).0 in
    rw (evict-set n p ps) (
      record {
        short = omega (arith, length-set (p ∷ ps) pos row, t.short);
        distinct = set-Distinct (p ∷ ps) pos row t.distinct h;
      },
      set-listed (p ∷ ps) pos row (omega (arith, inside)),
    )

-- `note_peer` keeps the table to eight rows, with no network twice, and afterwards the address's
-- network has a row, whether it was counted, added, or put in place of the smallest.
pub note_peer-IsTable :
    (addr : ℕ) (top : List Peer)
    → IsTable top
    → IsTable (note_peer addr top) × (is_listed (net_of addr) (note_peer addr top) ≡ true)
unfolding note_peer
note_peer-IsTable addr top t =
    let n = net_of addr in
    let row : Peer = record { net = n; pkts = 1 } in
    elim (Bool-cases (is_listed n top)) [
      | inl old ↦ rw old (
        record {
          short = omega (arith, length-count_listed n top, t.short);
          distinct = count_listed-Distinct n top t.distinct;
        },
        rw (count_listed-is_listed n n top) old,
      )
      | inr new ↦ elim (Bool-cases (ltb (length top) top_n)) [
        | inl room ↦
            rw (new, room)
              (
                record {
                  short = ground (arith, length-append top (row ∷ []));
                  distinct = append-Distinct top row t.distinct new;
                },
                rw (append-is_listed n top row, new) (==_self n),
              )
        | inr full ↦ rw (new, full) (evict-IsTable n top t new (ground arith))
      ]
    ]
