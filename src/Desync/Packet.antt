-- ===== src/Desync/Packet.antt =====
-- The packet handler of desync/desync.c: `handle`, `in_target`, the fake packet that it builds,
-- `ip_offset` and the round of `loop` that calls it.
pub mod Sends
pub mod Checks
pub mod Counters
pub mod Own
use raise_my_freedom.Common.{
  ℕ, zero, suc, ◌+◌, ◌-◌, ◌*◌, ◌/◌, ◌%◌, ◌^◌, ◌≤◌, ◌<◌, Bool, true, false, not, ◌&&◌, ◌||◌, Option,
  none, some, List, [], ◌∷◌, ◌++◌, ltb, leb, ◌==◌, if◌then◌else◌, length, take, drop, get_or, Scan,
  fault, stop, ok,
}
use Prim.Native.Nat.{bit_and}
use mathlib.Core.Option
use raise_my_freedom.Desync.Checksum.{csum16, ip_csum, tcp_csum}
use raise_my_freedom.Desync.Hello.{build_fake_hello, is_client_hello_start}
use raise_my_freedom.Desync.Peers.{Peer, note_peer}

-- The parts of `desync_config_t` that the handler reads, with the target network.
pub record Config : Type 0 where
  pub dport : ℕ
  pub fake_sni : Option (List ℕ)
  pub fake_ttl : ℕ
  pub net : ℕ
  pub mask : ℕ

-- `desync_stats_t`
pub record Stats : Type 0 where
  pub seen : ℕ
  pub matched : ℕ
  pub hellos : ℕ
  pub injected : ℕ
  pub no_fake : ℕ
  pub skipped : ℕ

-- `g_proto`
pub record Proto : Type 0 where
  pub tcp : ℕ
  pub udp : ℕ
  pub icmp : ℕ
  pub other_proto : ℕ
  pub not_v4 : ℕ
  pub long_hdr : ℕ
  pub short_pkt : ℕ
  pub to_us : ℕ
  pub to_other : ℕ
  pub outgoing : ℕ
  pub no_sni : ℕ

-- The static variables that a packet changes.
pub record Layer : Type 0 where
  pub stats : Stats
  pub proto : Proto
  pub top : List Peer

-- A 64-bit counter.
abbrev pub bump : ℕ → ℕ
bump n = (n + 1) % 2 ^ 64

abbrev pub byte : List ℕ → ℕ → ℕ
byte p i = get_or p i 0

-- `ntohs` of a two-byte field.
abbrev pub word : List ℕ → ℕ → ℕ
word p i = byte p i * 256 + byte p (i + 1)

abbrev pub fake_ipid : ℕ
fake_ipid = 0xDE50

-- "vk.ru"
abbrev pub default_sni : List ℕ
default_sni = b'v' ∷ b'k' ∷ b'.' ∷ b'r' ∷ b'u' ∷ []

abbrev pub daddr : List ℕ → ℕ
daddr p = word p 16 * 65536 + word p 18

abbrev pub thl : List ℕ → ℕ
thl p = byte p 32 / 16 * 4

unfoldable pub in_target : Config → ℕ → Bool
in_target cfg addr = bit_and addr cfg.mask == bit_and cfg.net cfg.mask

abbrev high : ℕ → ℕ
high n = n / 256 % 256

abbrev low : ℕ → ℕ
low n = n % 256

-- The IP header that `handle` writes, with `check` in its check field.
unfoldable pub ip_header : ℕ → ℕ → ℕ → List ℕ → ℕ → List ℕ
ip_header tos flen ttl addrs check =
    0x45
    ∷ tos
    ∷ high flen
    ∷ low flen
    ∷ 0xDE
    ∷ 0x50
    ∷ 0
    ∷ 0
    ∷ ttl
    ∷ 6
    ∷ high check
    ∷ low check
    ∷ addrs

-- The TCP segment: the header of the packet seen, with `check` in its check field, and the fake.
unfoldable pub tcp_segment : List ℕ → List ℕ → ℕ → List ℕ
tcp_segment header payload check =
    take 16 header ++ (high check ∷ low check ∷ (drop 18 header ++ payload))

-- The packet that `handle` puts together in `g_out` from the packet seen.
unfoldable pub fake_packet : Config → List ℕ → List ℕ → List ℕ
unfolding ip_header tcp_segment ip_csum tcp_csum
fake_packet cfg pkt fake =
    let flen = 20 + thl pkt + length fake in
    let ttl = if ltb 0 cfg.fake_ttl then cfg.fake_ttl else 3 in
    let addrs = take 8 (drop 12 pkt) in
    let header = ip_header (byte pkt 1) flen ttl addrs in
    let segment = tcp_segment (take (thl pkt) (drop 20 pkt)) fake in
    header (ip_csum (header 0)) ++ segment (tcp_csum (take 4 addrs) (drop 4 addrs) (segment 0))

-- What `handle` leaves: the layer and the packet that it handed to the sender, if any.
abbrev pub Outcome : Type 0
Outcome = Layer × Option (List ℕ)

abbrev pub with_stats : Layer → Stats → Layer
with_stats s v = record s { stats = v }

abbrev pub with_proto : Layer → Proto → Layer
with_proto s v = record s { proto = v }

-- From the ClientHello test on. `sent` says whether the sender took a packet whole.
unfoldable pub inject : (List ℕ → Bool) → Config → Layer → List ℕ → Outcome
unfolding fake_packet
inject sent cfg s pkt =
    let s1 = with_stats s (record s.stats { hellos = bump s.stats.hellos }) in
    elim (build_fake_hello (Option.get_or cfg.fake_sni default_sni) 1024) [
      | ok fake ↦
          let out = fake_packet cfg pkt fake in
          if ltb 65536 (20 + thl pkt + length fake)
          then (s1, none)
          else if sent out
          then (with_stats s1 (record s1.stats { injected = bump s1.stats.injected }), some out)
          else (s1, some out)
      | _ ↦ (s1, none)
    ]

-- A packet to the target: its port, its length, and what it carries.
unfoldable pub handle_target : (List ℕ → Bool) → Config → Layer → List ℕ → Outcome
handle_target sent cfg s pkt =
    let s1 = with_stats s (record s.stats { matched = bump s.stats.matched }) in
    let s2 = record s1 {
      stats = record s1.stats { no_fake = bump s1.stats.no_fake };
      proto = record s1.proto { no_sni = bump s1.proto.no_sni };
    } in
    let total = word pkt 2 in
    let start = 20 + thl pkt in
    let payload = take (total - start) (drop start pkt) in
    if ltb (thl pkt) 20 || ltb (length pkt) start
    then (s, none)
    else if ltb 0 cfg.dport && not (word pkt 22 == cfg.dport)
    then (s, none)
    else if ltb total (start + 6) || ltb (length pkt) total
    then (s1, none)
    else elim (is_client_hello_start payload) [ ok true ↦ inject sent cfg s1 pkt | _ ↦ (s2, none) ]

-- A TCP packet: one of ours is skipped, any other is noted.
unfoldable pub handle_tcp : (List ℕ → Bool) → Config → Layer → List ℕ → Outcome
handle_tcp sent cfg s pkt =
    let s1 = with_proto s (record s.proto { tcp = bump s.proto.tcp }) in
    if word pkt 4 == fake_ipid
    then (with_stats s1 (record s1.stats { skipped = bump s1.stats.skipped }), none)
    else let s2 = record s1 { top = note_peer (daddr pkt) s1.top } in
      if in_target cfg (daddr pkt) then handle_target sent cfg s2 pkt else (s2, none)

-- A packet of another protocol.
unfoldable pub count_other : ℕ → Proto → Proto
count_other proto c =
    let c1 = record c { other_proto = bump c.other_proto } in
    if proto == 17
    then record c1 { udp = bump c1.udp }
    else if proto == 1
    then record c1 { icmp = bump c1.icmp }
    else c1

-- `handle`
unfoldable pub handle : (List ℕ → Bool) → Config → Layer → List ℕ → Outcome
unfolding count_other
handle sent cfg s pkt =
    let s0 = with_stats s (record s.stats { seen = bump s.stats.seen }) in
    let c = s0.proto in
    if ltb (length pkt) 40
    then (with_proto s0 (record c { short_pkt = bump c.short_pkt }), none)
    else if not (byte pkt 0 / 16 == 4)
    then (with_proto s0 (record c { not_v4 = bump c.not_v4 }), none)
    else if not (byte pkt 0 % 16 == 5)
    then (with_proto s0 (record c { long_hdr = bump c.long_hdr }), none)
    else if not (byte pkt 9 == 6)
    then (with_proto s0 (count_other (byte pkt 9) c), none)
    else handle_tcp sent cfg s0 pkt

-- `ip_offset`: where the IP header begins in a frame.
unfoldable pub ip_offset : List ℕ → ℕ
ip_offset p =
    if leb 14 (length p) && byte p 12 == 0x08 && byte p 13 == 0x00
    then 14
    else if leb 18 (length p)
        && byte p 12 == 0x81
        && byte p 13 == 0x00
        && byte p 16 == 0x08
        && byte p 17 == 0x00
    then 18
    else 0

-- `sll_pkttype`: a packet to this host, one of its own, any other.
pub data Direction : Type 0 where
  host sent_by_us elsewhere : Direction

unfoldable pub count_direction : Direction → Proto → Proto
count_direction sent_by_us c = record c { outgoing = bump c.outgoing }
count_direction host c = record c { to_us = bump c.to_us }
count_direction elsewhere c = record c { to_other = bump c.to_other }

-- One round of `loop`, from the frame on.
unfoldable pub handle_frame : (List ℕ → Bool) → Config → Layer → Direction → List ℕ → Outcome
unfolding ip_offset count_direction
handle_frame sent cfg s dir frame =
    let start = ip_offset frame in
    let s1 = with_proto s (count_direction dir s.proto) in
    let s2 = record s1 {
      stats = record s1.stats { seen = bump s1.stats.seen };
      proto = record s1.proto { not_v4 = bump s1.proto.not_v4 };
    } in
    if leb (length frame) (start + 20)
    then (s, none)
    else if not (byte frame start / 16 % 16 == 4)
    then (s2, none)
    else handle sent cfg s1 (drop start frame)
