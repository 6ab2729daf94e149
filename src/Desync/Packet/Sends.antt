-- ===== src/Desync/Packet/Sends.antt =====
-- When `handle` sends a packet, and what it sends.
use raise_my_freedom.Common.{
  ℕ, ◌+◌, ◌-◌, ◌/◌, ◌%◌, ◌≤◌, ◌≡◌, ◌≢◌, ◌⊎◌, refl, Bool, true, false, not, ◌&&◌, ◌||◌, none, some,
  List, arith, ltb, ◌==◌, if◌then◌else◌, length, take, drop, Scan, ok, ==_self,
}
use mathlib.Core.Option
use raise_my_freedom.Desync.Hello.{build_fake_hello, is_client_hello_start}
use raise_my_freedom.Desync.Packet.{
  Config, Layer, Outcome, byte, word, fake_ipid, default_sni, daddr, thl, in_target, fake_packet,
  inject, handle_target, handle_tcp, handle,
}

-- What holds of a packet to the target when `handle` hands `out` to the sender.
pub record TargetSends (cfg : Config) (pkt out : List ℕ) : Type 0 where
  pub header_fits : (20 ≤ thl pkt) × (20 + thl pkt ≤ length pkt)
  pub to_port : (cfg.dport ≡ 0) ⊎ (word pkt 22 ≡ cfg.dport)
  pub length_fits : (20 + thl pkt + 6 ≤ word pkt 2) × (word pkt 2 ≤ length pkt)
  pub is_hello :
      is_client_hello_start (take (word pkt 2 - (20 + thl pkt)) (drop (20 + thl pkt) pkt)) ≡ ok true
  pub hello : List ℕ
  pub built : build_fake_hello (Option.get_or cfg.fake_sni default_sni) 1024 ≡ ok hello
  pub made : out ≡ fake_packet cfg pkt hello

-- All that holds when `handle` hands `out` to the sender.
pub record Sends (cfg : Config) (pkt out : List ℕ) : Type 0 where
  pub long_enough : 40 ≤ length pkt
  pub is_v4 : byte pkt 0 / 16 ≡ 4
  pub plain_header : byte pkt 0 % 16 ≡ 5
  pub is_tcp : byte pkt 9 ≡ 6
  pub not_ours : word pkt 4 ≢ fake_ipid
  pub to_target : in_target cfg (daddr pkt) ≡ true
  pub target : TargetSends cfg pkt out

-- A branch that sends nothing was not taken.
past :
    (b : Bool) (s : Layer) (rest : Outcome) {out : List ℕ}
    → (if b then (s, none) else rest).1 ≡ some out
    → (b ≡ false) × (rest.1 ≡ some out)
past true s rest e = cc
past false s rest e = (refl, e)

past_into :
    (b : Bool) (rest : Outcome) (s : Layer) {out : List ℕ}
    → (if b then rest else (s, none)).1 ≡ some out
    → (b ≡ true) × (rest.1 ≡ some out)
past_into true rest s e = (refl, e)
past_into false rest s e = cc

past_hello :
    (h : Scan Bool) (rest : Outcome) (s : Layer) {out : List ℕ}
    → (let r : Outcome = elim h [ ok true ↦ rest | _ ↦ (s, none) ] in r.1) ≡ some out
    → (h ≡ ok true) × (rest.1 ≡ some out)
past_hello (ok true) rest s e = (refl, e)
past_hello _ rest s e = cc

module _ (sent : List ℕ → Bool) (cfg : Config) (pkt out : List ℕ) where
  inject-Sends :
      (s : Layer)
      → (inject sent cfg s pkt).1 ≡ some out
      → (hello : List ℕ) × (build_fake_hello (Option.get_or cfg.fake_sni default_sni) 1024
          ≡ ok hello)
        × (out ≡ fake_packet cfg pkt hello)
  unfolding inject
  inject-Sends s e = ground arith

  handle_target-Sends :
      (s : Layer) → (handle_target sent cfg s pkt).1 ≡ some out → TargetSends cfg pkt out
  unfolding handle_target
  handle_target-Sends s e =
      let start = 20 + thl pkt in
      let (b1, e1) = past (ltb (thl pkt) 20 || ltb (length pkt) start) _ _ e in
      let (b2, e2) = past (ltb 0 cfg.dport && not (word pkt 22 == cfg.dport)) _ _ e1 in
      let (b3, e3) = past (ltb (word pkt 2) (start + 6) || ltb (length pkt) (word pkt 2)) _ _ e2 in
      let (h, e4) =
        past_hello (is_client_hello_start (take (word pkt 2 - start) (drop start pkt))) _ _ e3 in
      let (hello, built, made) = inject-Sends _ e4 in
      record {
        header_fits = (ground (arith, b1), ground (arith, b1));
        to_port = ground (arith, b2);
        length_fits = (ground (arith, b3), ground (arith, b3));
        is_hello = h;
        hello = hello;
        built = built;
        made = made;
      }

  handle_tcp-Sends :
      (s : Layer)
      → (handle_tcp sent cfg s pkt).1 ≡ some out
      → (word pkt 4 ≢ fake_ipid) × (in_target cfg (daddr pkt) ≡ true) × TargetSends cfg pkt out
  unfolding handle_tcp
  handle_tcp-Sends s e =
      let (b1, e1) = past (word pkt 4 == fake_ipid) _ _ e in
      let (b2, e2) = past_into (in_target cfg (daddr pkt)) _ _ e1 in
      ((λ same. cc (b1, rw same at (==_self (word pkt 4)))), b2, handle_target-Sends _ e2)

  -- `handle` hands a packet to the sender only for an IPv4 packet with a plain header, of TCP, not
  -- one of its own, to the target network and port, whose lengths fit and whose payload begins
  -- like a ClientHello; what it hands over is the fake packet made from that one.
  pub handle-Sends : (s : Layer) → (handle sent cfg s pkt).1 ≡ some out → Sends cfg pkt out
  unfolding handle
  handle-Sends s e =
      let (b1, e1) = past (ltb (length pkt) 40) _ _ e in
      let (b2, e2) = past (not (byte pkt 0 / 16 == 4)) _ _ e1 in
      let (b3, e3) = past (not (byte pkt 0 % 16 == 5)) _ _ e2 in
      let (b4, e4) = past (not (byte pkt 9 == 6)) _ _ e3 in
      let (ours, inside, t) = handle_tcp-Sends _ e4 in
      record {
        long_enough = ground (arith, b1);
        is_v4 = ground (arith, b2);
        plain_header = ground (arith, b3);
        is_tcp = ground (arith, b4);
        not_ours = ours;
        to_target = inside;
        target = t;
      }
