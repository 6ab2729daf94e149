-- ===== src/Desync/Packet/Counters.antt =====
-- How the counters of the packet layer hang together.
use raise_my_freedom.Common.{
  ℕ, ◌+◌, ◌/◌, ◌%◌, ◌^◌, ◌≤◌, ◌<◌, ◌≡◌, refl, Bool, true, false, not, ◌&&◌, ◌||◌, List, arith, ltb,
  ◌==◌, if◌then◌else◌, length, Scan, ok,
}
use raise_my_freedom.Desync.Hello.{is_client_hello_start}
use raise_my_freedom.Desync.Peers.{note_peer}
use raise_my_freedom.Desync.Packet.{
  Config, Layer, Outcome, bump, byte, word, fake_ipid, daddr, thl, in_target, inject, handle_target,
  handle_tcp, handle,
}

-- Every packet seen is counted once: as TCP, as another protocol, or by why it was not looked at.
-- What was sent was a ClientHello, and what was a ClientHello or not one had matched the target.
pub record Tallies (s : Layer) (seen : ℕ) : Type 0 where
  pub all_seen : s.stats.seen ≡ seen
  pub by_kind :
      seen
      ≡ s.proto.tcp + s.proto.other_proto + s.proto.not_v4 + s.proto.long_hdr + s.proto.short_pkt
  pub others : s.proto.udp + s.proto.icmp ≤ s.proto.other_proto
  pub by_target : s.stats.matched + s.stats.skipped ≤ s.proto.tcp
  pub by_payload : s.stats.hellos + s.stats.no_fake ≤ s.stats.matched
  pub by_result : s.stats.injected ≤ s.stats.hellos

-- The same, before a TCP packet that is about to be counted further.
record TcpTallies (s : Layer) (seen : ℕ) : Type 0 where
  room : seen < 2 ^ 64
  all_seen : s.stats.seen ≡ seen
  by_kind :
      seen
      ≡ s.proto.tcp + s.proto.other_proto + s.proto.not_v4 + s.proto.long_hdr + s.proto.short_pkt
  others : s.proto.udp + s.proto.icmp ≤ s.proto.other_proto
  by_target : s.stats.matched + s.stats.skipped + 1 ≤ s.proto.tcp
  by_payload : s.stats.hellos + s.stats.no_fake ≤ s.stats.matched
  by_result : s.stats.injected ≤ s.stats.hellos

-- The same, once `matched` has counted the packet.
record HelloTallies (s : Layer) (seen : ℕ) : Type 0 where
  room : seen < 2 ^ 64
  all_seen : s.stats.seen ≡ seen
  by_kind :
      seen
      ≡ s.proto.tcp + s.proto.other_proto + s.proto.not_v4 + s.proto.long_hdr + s.proto.short_pkt
  others : s.proto.udp + s.proto.icmp ≤ s.proto.other_proto
  by_target : s.stats.matched + s.stats.skipped ≤ s.proto.tcp
  by_payload : s.stats.hellos + s.stats.no_fake + 1 ≤ s.stats.matched
  by_result : s.stats.injected ≤ s.stats.hellos

if-Tallies :
    (b : Bool) (x y : Outcome) {n : ℕ}
    → Tallies x.0 n
    → Tallies y.0 n
    → Tallies (if b then x else y).0 n
if-Tallies true x y h k = h
if-Tallies false x y h k = k

hello-Tallies :
    (h : Scan Bool) (x y : Outcome) {n : ℕ}
    → Tallies x.0 n
    → Tallies y.0 n
    → Tallies (let r : Outcome = elim h [ ok true ↦ x | _ ↦ y ] in r).0 n
hello-Tallies (ok true) x y a b = a
hello-Tallies _ x y a b = b

module _ (sent : List ℕ → Bool) (cfg : Config) (pkt : List ℕ) where
  inject-Tallies : (s : Layer) (n : ℕ) → HelloTallies s n → Tallies (inject sent cfg s pkt).0 n
  unfolding inject
  inject-Tallies s n h = ground arith

  handle_target-Tallies :
      (s : Layer) (n : ℕ) → TcpTallies s n → Tallies (handle_target sent cfg s pkt).0 n
  unfolding handle_target
  handle_target-Tallies s n h =
      let here : Tallies s n = ground arith in
      let s1 = record s { stats = record s.stats { matched = bump s.stats.matched } } in
      let next : HelloTallies s1 n = ground arith in
      if-Tallies (ltb (thl pkt) 20 || ltb (length pkt) (20 + thl pkt)) _ _ here (
        if-Tallies (ltb 0 cfg.dport && not (word pkt 22 == cfg.dport)) _ _ here (
          if-Tallies (ltb (word pkt 2) (20 + thl pkt + 6) || ltb (length pkt) (word pkt 2)) _ _
            (ground arith)
            (hello-Tallies (is_client_hello_start _) _ _ (inject-Tallies s1 n next)
              (ground arith))))

  handle_tcp-Tallies :
      (s : Layer) (n : ℕ)
      → n < 2 ^ 64
      → Tallies s n
      → (s' : Layer) → s' ≡ record s { stats = record s.stats { seen = bump s.stats.seen } }
      → n + 1 < 2 ^ 64
      → Tallies (handle_tcp sent cfg s' pkt).0 (n + 1)
  unfolding handle_tcp
  handle_tcp-Tallies s n fits h s' same room =
      let s1 = record s' { proto = record s'.proto { tcp = bump s'.proto.tcp } } in
      let s2 = record s1 { top = note_peer (daddr pkt) s1.top } in
      let noted : TcpTallies s2 (n + 1) = ground arith in
      if-Tallies (word pkt 4 == fake_ipid) _ _ (ground arith) (
        if-Tallies (in_target cfg (daddr pkt)) _ _ (handle_target-Tallies s2 (n + 1) noted)
          (ground arith))

  -- `handle` counts every packet once, while `seen` has not reached 2^64 - 1: the tallies of the
  -- counters hold again, with one packet more seen.
  handle-Tallies :
      (s : Layer) (n : ℕ) → n + 1 < 2 ^ 64 → Tallies s n → Tallies (handle sent cfg s pkt).0 (n + 1)
  unfolding handle
  handle-Tallies s n room h = if-Tallies (ltb (length pkt) 40) _ _ (ground arith) (
      if-Tallies (not (byte pkt 0 / 16 == 4)) _ _ (ground arith) (
        if-Tallies (not (byte pkt 0 % 16 == 5)) _ _ (ground arith) (
          if-Tallies (not (byte pkt 9 == 6)) _ _ (ground arith)
            (handle_tcp-Tallies s n (omega arith) h _ refl room))))
