-- ===== src/Sni/Splice.antt =====
-- What `splice_loop` of common/sni_relay.c does with the bytes of one `recv`: its inner loop, by
-- the bytes still to go (`buf` from `off` on) and `rec_left`. Each element of the result is one
-- write; `transmit` stops at the first write that fails.
pub mod Reframed
pub mod Astray
pub mod Relayed
use raise_my_freedom.Common.{
  ℕ, zero, suc, ◌+◌, ◌-◌, ◌*◌, ◌/◌, ◌%◌, Bool, true, false, not, ◌&&◌, List, [], ◌∷◌, ◌++◌, ltb,
  leb, ◌==◌, if◌then◌else◌, length, take, drop, get_or, min,
}

-- `g_no_split_recs` negated, `g_split_data`, `g_split_size` and `g_data_chunk`.
pub record Settings : Type 0 where
  pub split_recs : Bool
  pub split_data : Bool
  pub split_size : ℕ
  pub data_chunk : ℕ

-- `(buf[off + 3] << 8) | buf[off + 4]`
abbrev pub record_size : List ℕ → ℕ
record_size rest = get_or rest 3 0 * 256 + get_or rest 4 0

-- A record's header.
abbrev pub header : ℕ → ℕ → ℕ → ℕ → List ℕ
header kind major minor size = kind ∷ major ∷ minor ∷ (size / 256) % 256 ∷ size % 256 ∷ []

-- A whole record of the kind lies ahead, of more than `least` bytes.
abbrev pub whole_record : ℕ → ℕ → List ℕ → Bool
whole_record kind least rest =
    leb 5 (length rest)
    && get_or rest 0 0 == kind
    && leb (5 + record_size rest) (length rest)
    && ltb least (record_size rest)

-- A data record begins here and goes on behind the buffer.
abbrev pub open_record : List ℕ → Bool
open_record rest =
    leb 5 (length rest) && get_or rest 0 0 == 0x17 && ltb (length rest) (5 + record_size rest)

-- A handshake record in two.
unfoldable pub split_record : List ℕ → List (List ℕ)
split_record rest =
    let rlen = record_size rest in
    let split = rlen / 2 in
    let payload = take rlen (drop 5 rest) in
    header 0x16 (get_or rest 1 0) (get_or rest 2 0) split
    ∷ take split payload
    ∷ header 0x16 0x03 0x01 (rlen - split)
    ∷ drop split payload
    ∷ []

-- A data record in parts; each part takes a byte at least.
unfoldable pub split_payload : ℕ → ℕ → ℕ → ℕ → List ℕ → List (List ℕ)
split_payload zero size major minor payload = []
split_payload (suc fuel) size major minor [] = []
split_payload (suc fuel) size major minor (b ∷ payload) =
    let chunk = min (length (b ∷ payload)) size in
    header 0x17 major minor chunk
    ∷ take chunk (b ∷ payload)
    ∷ split_payload fuel size major minor (drop chunk (b ∷ payload))

-- The inner loop; every round takes a byte at least. A stall, with nothing to take, is an empty
-- write at the end.
unfoldable pub forward : ℕ → Settings → List ℕ → ℕ → List (List ℕ)
unfolding split_record split_payload
forward zero cfg rest rec_left = []
forward (suc fuel) cfg [] rec_left = []
forward (suc fuel) cfg (b ∷ s) rec_left =
    let rest = b ∷ s in
    let mid = min rec_left (length rest) in
    let tracked = if cfg.split_data && open_record rest then 5 + record_size rest else 0 in
    let chunk =
      if ltb 0 tracked
      then min (min (length rest) cfg.data_chunk) tracked
      else min (length rest) cfg.data_chunk in
    let middle = take mid rest ∷ forward fuel cfg (drop mid rest) (rec_left - mid) in
    let halves = split_record rest ++ forward fuel cfg (drop (record_size rest) (drop 5 rest)) 0 in
    let pieces =
      split_payload (record_size rest) cfg.split_size (get_or rest 1 0) (get_or rest 2 0)
        (take (record_size rest) (drop 5 rest))
      ++ forward fuel cfg (drop (record_size rest) (drop 5 rest)) 0 in
    let raw = take chunk rest ∷ forward fuel cfg (drop chunk rest) (tracked - chunk) in
    if ltb 0 rec_left
    then middle
    else if cfg.split_recs && whole_record 0x16 200 rest
    then halves
    else if cfg.split_data && whole_record 0x17 cfg.split_size rest
    then pieces
    else if ltb 0 chunk
    then raw
    else [] ∷ []

-- All that the writes send.
unfoldable pub joined : List (List ℕ) → List ℕ
joined [] = []
joined (w ∷ ws) = w ++ joined ws

-- The bytes of one `recv`; a round of the loop takes one of them at least.
unfoldable pub splice : Settings → List ℕ → List (List ℕ)
unfolding forward
splice cfg buf = forward (length buf) cfg buf 0

-- The writes that reach the other side, by which writes succeed.
unfoldable pub transmit : (ℕ → Bool) → ℕ → List (List ℕ) → List (List ℕ)
transmit accepts k [] = []
transmit accepts k (w ∷ ws) =
    let more = transmit accepts (k + 1) ws in if accepts k then w ∷ more else []

-- What `recv` gives for a socket that `poll` reports, if it reports it.
pub data Recv : Type 0 where
  silent : Recv
  gone : Recv
  data_in : List ℕ → Recv

-- What `poll` gives: nothing in time, an error, or the client's socket and the server's.
pub data Poll : Type 0 where
  idle : Poll
  failed : Poll
  ready : Recv → Recv → Poll

-- A write, by whether it goes to the server.
abbrev pub Write : Type 0
Write = Bool × List ℕ

abbrev pub label : Bool → List (List ℕ) → List Write
label up [] = []
label up (w ∷ ws) = (up, w) ∷ label up ws

abbrev last_is_empty : List (List ℕ) → Bool
last_is_empty [] = false
last_is_empty (w ∷ []) = length w == 0
last_is_empty (w ∷ (v ∷ ws)) = last_is_empty (v ∷ ws)

-- Whether the inner loop ends in a stall, which ends the outer one: only where `g_data_chunk` is 0.
abbrev pub stalls : Settings → List (List ℕ) → Bool
stalls cfg writes = cfg.data_chunk == 0 && last_is_empty writes

-- One socket of one round: the writes made, and whether the loop goes on. `k` counts the writes so
-- far.
unfoldable pub serve_side : Settings → (ℕ → Bool) → ℕ → Bool → Recv → List Write × Bool
unfolding splice transmit
serve_side cfg accepts k up silent = ([], true)
serve_side cfg accepts k up gone = ([], false)
serve_side cfg accepts k up (data_in bytes) =
    let writes = splice cfg bytes in
    let made = transmit accepts k writes in
    (label up made, length made == length writes && not (stalls cfg writes))

-- The outer loop, by what `poll` and `recv` give in turn.
unfoldable pub splice_loop : Settings → (ℕ → Bool) → ℕ → List Poll → List Write
unfolding serve_side
splice_loop cfg accepts k [] = []
splice_loop cfg accepts k (idle ∷ polls) = []
splice_loop cfg accepts k (failed ∷ polls) = []
splice_loop cfg accepts k (ready c s ∷ polls) =
    let first = serve_side cfg accepts k true c in
    let second = serve_side cfg accepts (k + length first.0) false s in
    let rest = splice_loop cfg accepts (k + length first.0 + length second.0) polls in
    if first.1
    then (if second.1 then first.0 ++ (second.0 ++ rest) else first.0 ++ second.0)
    else first.0
