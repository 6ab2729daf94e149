-- ===== src/Desync/Packet/Own.antt =====
-- The whole packet that `handle` hands over: both checksums verify, and the layer skips it.
use raise_my_freedom.Common.{
  ℕ, zero, suc, ◌+◌, ◌/◌, ◌%◌, ◌≤◌, ◌<◌, ◌≡◌, refl, Bool, ◌&&◌, Option, none, some, List, [], ◌∷◌,
  ◌++◌, arith, ltb, leb, if◌then◌else◌, length, take, drop, get_or, replicate, All, length-take,
  length-drop, ok, ◌⊎◌, inl, inr, guard-eq-ok,
}
use mathlib.Core.Option
use raise_my_freedom.Desync.Checksum.{ip_csum, tcp_csum, IsByte, words, SumsToOnes}
use raise_my_freedom.Desync.Hello.{build_fake_hello, fake_body}
use raise_my_freedom.Desync.Packet.{
  Config, Layer, word, byte, thl, default_sni, fake_ipid, ip_header, tcp_segment, fake_packet,
  handle,
}
use raise_my_freedom.Desync.Packet.Sends.{handle-Sends}
use raise_my_freedom.Desync.Packet.Checks.{
  take-IsByte, drop-IsByte, ip_header-SumsToOnes, tcp_segment-SumsToOnes, with_pseudo_header,
  length-ip_header,
}

get_or-IsByte : (l : List ℕ) (i : ℕ) → All IsByte l → get_or l i 0 < 256
get_or-IsByte [] i h = omega arith
get_or-IsByte (x ∷ l) zero (h, t) = h
get_or-IsByte (x ∷ l) (suc i) (h, t) = get_or-IsByte l i t

replicate-IsByte : (n b : ℕ) → b < 256 → All IsByte (replicate n b)
replicate-IsByte zero b h = tt
replicate-IsByte (suc n) b h = (h, replicate-IsByte n b h)

fake_record : List ℕ → List ℕ
fake_record sni =
    let n = 1 + 3 + 32 + 1 + 2 + 2 + 1 + 1 + 2 + (7 + length sni) in
    0x16 ∷ 0x03 ∷ 0x01 ∷ (n / 256 % 256) ∷ (n % 256) ∷ fake_body sni

fake_record-All : (sni : List ℕ) → All IsByte sni → All IsByte (fake_record sni)
unfolding fake_record fake_body
fake_record-All sni h = grind (arith, h)

-- A fake hello that was built is at most 1024 bytes long, and all its bytes are bytes.
pub build_fake_hello-IsByte :
    (sni hello : List ℕ)
    → All IsByte sni
    → build_fake_hello sni 1024 ≡ ok hello
    → All IsByte hello × (length hello ≤ 1024)
unfolding build_fake_hello fake_body fake_record
build_fake_hello-IsByte sni hello hs e =
    let n = length sni in
    let (g1, e1) = guard-eq-ok (leb 1 n && leb n 250) _ e in
    let (g2, e2) =
      guard-eq-ok (leb (5 + (1 + 3 + 32 + 1 + 2 + 2 + 1 + 1 + 2 + (7 + n))) 1024) _ e1 in
    let shape : fake_record sni ≡ hello = cc e2 in
    rw (← shape) (fake_record-All sni hs, ground (arith, g1))

-- What the fake packet is made of: twenty bytes of header with the packet's own addresses and the
-- protocol TCP, whose words sum to ones; and a segment whose words sum to ones with the
-- pseudo-header that a receiver makes of that header.
pub record Verifies (pkt out : List ℕ) : Type 0 where
  pub header : List ℕ
  pub segment : List ℕ
  pub whole : out ≡ header ++ segment
  pub header_size : length header ≡ 20
  pub protocol : get_or header 9 0 ≡ 6
  pub addresses : drop 12 header ≡ take 8 (drop 12 pkt)
  pub header_sum : SumsToOnes (words header)
  pub segment_sum : SumsToOnes (words (with_pseudo_header (drop 12 header) segment))

fake_packet-Verifies :
    (cfg : Config) (pkt hello : List ℕ)
    → All IsByte pkt
    → cfg.fake_ttl < 256
    → All IsByte hello × (length hello ≤ 1024)
    → 40 ≤ length pkt
    → (20 ≤ thl pkt) × (20 + thl pkt ≤ length pkt)
    → Verifies pkt (fake_packet cfg pkt hello)
unfolding fake_packet ip_header
fake_packet-Verifies cfg pkt hello hp ttl (hh, lh) long (low, fits) =
    let addrs = take 8 (drop 12 pkt) in
    let ha = take-IsByte 8 (drop 12 pkt) (drop-IsByte 12 pkt hp) in
    let la : length addrs ≡ 8 = length-take 8 (drop 12 pkt) (omega (arith, length-drop 12 pkt)) in
    let flen = 20 + thl pkt + length hello in
    let t : ℕ = if ltb 0 cfg.fake_ttl then cfg.fake_ttl else 3 in
    let tcp = take (thl pkt) (drop 20 pkt) in
    let lt = length-take (thl pkt) (drop 20 pkt) (omega (arith, length-drop 20 pkt)) in
    let h0 = ip_header (byte pkt 1) flen t addrs 0 in
    record {
      header = ip_header (byte pkt 1) flen t addrs (ip_csum h0);
      segment =
          tcp_segment tcp hello (tcp_csum (take 4 addrs) (drop 4 addrs) (tcp_segment tcp hello 0));
      whole = refl;
      header_size = length-ip_header (byte pkt 1) flen t addrs (ip_csum h0) la;
      protocol = refl;
      addresses = refl;
      header_sum =
          ip_header-SumsToOnes (byte pkt 1) flen t addrs (get_or-IsByte pkt 1 hp) (ground arith) ha
            la;
      segment_sum =
          tcp_segment-SumsToOnes addrs tcp hello ha la
            (take-IsByte (thl pkt) _ (drop-IsByte 20 pkt hp)) hh (omega (arith, lt))
            (omega (arith, lt, get_or-IsByte pkt 32 hp));
    }

-- Given a packet of bytes, a fake name of bytes and a TTL of one byte: what `handle` hands to the
-- sender is a header of twenty bytes, with the addresses of the packet seen and the protocol TCP,
-- and a segment, and both verify as RFC 1071 says: the sum of the header's 16-bit words, and that of
-- the words of the pseudo-header and the segment, is a positive multiple of 65535.
pub handle-Verifies :
    (sent : List ℕ → Bool) (cfg : Config) (s : Layer) (pkt out : List ℕ)
    → All IsByte pkt
    → All IsByte (Option.get_or cfg.fake_sni default_sni)
    → cfg.fake_ttl < 256
    → (handle sent cfg s pkt).1 ≡ some out
    → Verifies pkt out
handle-Verifies sent cfg s pkt out hp hn ttl e =
    let c = handle-Sends sent cfg pkt out s e in
    let t = c.target in
    rw t.made (
      fake_packet-Verifies cfg pkt t.hello hp ttl
        (build_fake_hello-IsByte (Option.get_or cfg.fake_sni default_sni) t.hello hn t.built)
        c.long_enough t.header_fits)

fake_packet-marked :
    (cfg : Config) (pkt hello : List ℕ) → word (fake_packet cfg pkt hello) 4 ≡ fake_ipid
unfolding fake_packet
fake_packet-marked cfg pkt hello = refl

Option-cases {ℓ} : {A : Type ℓ} (o : Option A) → (o ≡ none) ⊎ ((a : A) × (o ≡ some a))
Option-cases none = inl refl
Option-cases (some a) = inr (a, refl)

-- No recursion: whatever `handle` handed to the sender, in whatever state and under whatever
-- settings it is seen again, makes `handle` send nothing.
pub handle_own :
    (sent sent' : List ℕ → Bool) (cfg cfg' : Config) (s s' : Layer) (pkt out : List ℕ)
    → (handle sent cfg s pkt).1 ≡ some out
    → (handle sent' cfg' s' out).1 ≡ none
handle_own sent sent' cfg cfg' s s' pkt out e = elim (Option-cases (handle sent' cfg' s' out).1) [
  | inl quiet ↦ quiet
  | inr (again, e') ↦
      let first = (handle-Sends sent cfg pkt out s e).target in
      absurd (
        (handle-Sends sent' cfg' out again s' e').not_ours
          (rw first.made (fake_packet-marked cfg pkt first.hello)))
]
