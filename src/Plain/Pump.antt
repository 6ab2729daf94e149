-- ===== src/Plain/Pump.antt =====
-- `pump` of common/plain_relay.c: both directions of a connection, each until its own end.
pub mod Delivered
use raise_my_freedom.Common.{
  ℕ, zero, suc, ◌+◌, ◌-◌, ◌*◌, ◌/◌, ◌%◌, Bool, true, false, not, ◌&&◌, ◌||◌, List, [], ◌∷◌, ◌++◌,
  ltb, leb, ◌==◌, if◌then◌else◌, length, take, drop, get_or, min, Scan, fault, stop, ok, ◌>>=◌,
}
use raise_my_freedom.Sni.Splice.{header, record_size, split_payload, transmit, Write, label}

-- `g_chunk`, `g_split_data` and `g_split_size`.
pub record PumpSettings : Type 0 where
  pub chunk : ℕ
  pub split_data : Bool
  pub split_size : ℕ

-- What one socket has for a round: nothing, bytes, its end, an error to try again, or another one.
pub data Seen : Type 0 where
  quiet : Seen
  got : List ℕ → Seen
  ended : Seen
  again : Seen
  broken : Seen

-- A round: the connection's time is over or `poll` finds nothing in time, `poll` fails, it is
-- interrupted, or the two sockets are looked at.
pub data Round : Type 0 where
  idle : Round
  poll_failed : Round
  interrupted : Round
  looked : Seen → Seen → Round

-- The loop that cuts by `g_chunk`.
unfoldable pub chunks : ℕ → ℕ → List ℕ → List (List ℕ)
chunks zero size bytes = []
chunks (suc fuel) size [] = []
chunks (suc fuel) size (b ∷ s) =
    take (min (length (b ∷ s)) size) (b ∷ s)
    ∷ chunks fuel size (drop (min (length (b ∷ s)) size) (b ∷ s))

-- The loop that cuts data records, on what is left of the `n` bytes received: `fault` is a read
-- behind them.
unfoldable pub record_parts : ℕ → PumpSettings → ℕ → List ℕ → Scan (List (List ℕ))
unfolding split_payload
record_parts zero cfg n rest = ok []
record_parts (suc fuel) cfg n [] = ok []
record_parts (suc fuel) cfg n (b ∷ s) =
    let rest = b ∷ s in
    let rlen = record_size rest in
    let part = min (length rest) cfg.split_size in
    let raw = record_parts fuel cfg n (drop part rest) in
    let behind = record_parts fuel cfg n (drop rlen (drop 5 rest)) in
    if ltb (length rest) 5
    then ok (rest ∷ [])
    else if not (b == 0x17) || leb rlen cfg.split_size || ltb n (5 + rlen)
    then raw >>= (λ ws. ok (take part rest ∷ ws))
    else if ltb (length rest) (5 + rlen)
    then fault
    else behind >>= (λ ws. ok (
        split_payload rlen cfg.split_size (get_or rest 1 0) (get_or rest 2 0)
          (take rlen (drop 5 rest))
        ++ ws))

-- What is sent for the bytes of one `recv`.
unfoldable pub parts : PumpSettings → List ℕ → Scan (List (List ℕ))
unfolding chunks record_parts
parts cfg bytes =
    if cfg.split_data
    then record_parts (length bytes) cfg (length bytes) bytes
    else ok (
        if ltb 0 cfg.chunk && ltb cfg.chunk (length bytes)
        then chunks (length bytes) cfg.chunk bytes
        else bytes ∷ [])

-- One socket's turn: the writes, whether the other socket is shut down for writing behind them,
-- whether this side is done, and whether the loop goes on.
pub record Turn : Type 0 where
  pub writes : List Write
  pub shuts : Bool
  pub done : Bool
  pub goes_on : Bool

unfoldable pub turn : PumpSettings → (ℕ → Bool) → ℕ → Bool → Bool → Seen → Turn
unfolding parts transmit
turn cfg accepts k up true seen = record { writes = []; shuts = false; done = true; goes_on = true }
turn cfg accepts k up false quiet = record {
  writes = [];
  shuts = false;
  done = false;
  goes_on = true;
}
turn cfg accepts k up false again = record {
  writes = [];
  shuts = false;
  done = false;
  goes_on = true;
}
turn cfg accepts k up false broken = record {
  writes = [];
  shuts = false;
  done = false;
  goes_on = false;
}
turn cfg accepts k up false ended = record {
  writes = [];
  shuts = true;
  done = true;
  goes_on = true;
}
turn cfg accepts k up false (got bytes) = elim (parts cfg bytes) [
  | ok ws ↦
      let made = transmit accepts k ws in
      record {
        writes = label up made;
        shuts = false;
        done = false;
        goes_on = length made == length ws;
      }
  | _ ↦ record { writes = []; shuts = false; done = false; goes_on = false }
]

-- The loop's writes, by the rounds; `c` and `u` are `c_done` and `u_done`, `k` counts the writes so far.
unfoldable pub pump : PumpSettings → (ℕ → Bool) → ℕ → List Round → Bool → Bool → List Write
unfolding turn
pump cfg accepts k [] c u = []
pump cfg accepts k (idle ∷ rounds) c u = []
pump cfg accepts k (poll_failed ∷ rounds) c u = []
pump cfg accepts k (interrupted ∷ rounds) c u = pump cfg accepts k rounds c u
pump cfg accepts k (looked x y ∷ rounds) c u =
    let first = turn cfg accepts k true c x in
    let second = turn cfg accepts (k + length first.writes) false u y in
    let rest =
      pump cfg accepts (k + length first.writes + length second.writes) rounds first.done
        second.done in
    if c && u
    then []
    else if first.goes_on
    then (if second.goes_on
        then first.writes ++ (second.writes ++ rest)
        else first.writes ++ second.writes)
    else first.writes
