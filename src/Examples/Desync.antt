-- ===== src/Examples/Desync.antt =====
-- Runs of the fake-packet layer on one packet to its target.
use raise_my_freedom.Common.{
  ℕ, ◌+◌, ◌≡◌, refl, Bool, true, none, some, List, [], ◌∷◌, arith, length, take, drop, ok, stop,
  All,
}
use mathlib.Core.Option
use raise_my_freedom.Sni.Hello.{find_split}
use raise_my_freedom.Desync.Checksum.{IsByte}
use raise_my_freedom.Desync.Hello.{find_sni, fake_body, build_fake_hello, is_client_hello_start}
use raise_my_freedom.Desync.Hello.RoundTrip.{find_sni-build_fake_hello, find_split-fake_body}
use raise_my_freedom.Desync.Peers.{net_of, is_listed, note_peer}
use raise_my_freedom.Desync.Peers.Table.{IsTable, note_peer-IsTable}
use raise_my_freedom.Desync.Packet.{
  Config, Layer, default_sni, in_target, inject, handle_target, handle_tcp, handle,
}
use raise_my_freedom.Desync.Packet.Sends.{Sends, handle-Sends}
use raise_my_freedom.Desync.Packet.Own.{Verifies, handle-Verifies, handle_own}

-- The target 162.159.128.0/18 and port 443.
abbrev config : Config
config = record { dport = 443; fake_sni = none; fake_ttl = 3; net = 2728361984; mask = 4294950912 }

abbrev fresh : Layer
fresh = record {
  stats = record { seen = 0; matched = 0; hellos = 0; injected = 0; no_fake = 0; skipped = 0 };
  proto = record {
    tcp = 0;
    udp = 0;
    icmp = 0;
    other_proto = 0;
    not_v4 = 0;
    long_hdr = 0;
    short_pkt = 0;
    to_us = 0;
    to_other = 0;
    outgoing = 0;
    no_sni = 0;
  };
  top = [];
}

-- A packet to 162.159.128.1:443 whose six bytes of payload begin a ClientHello.
abbrev packet : List ℕ
packet =
    0x45 ∷ 0 ∷ 0 ∷ 46 ∷ 0 ∷ 1 ∷ 0 ∷ 0 ∷ 64 ∷ 6 ∷ 0 ∷ 0 ∷ 10 ∷ 0 ∷ 0 ∷ 2 ∷ 162 ∷ 159 ∷ 128 ∷ 1 ∷ 0x80
    ∷ 1 ∷ 1 ∷ 187 ∷ 0 ∷ 0 ∷ 0 ∷ 1 ∷ 0 ∷ 0 ∷ 0 ∷ 1 ∷ 0x50 ∷ 0x18 ∷ 1 ∷ 0 ∷ 0 ∷ 0 ∷ 0 ∷ 0 ∷ 0x16 ∷ 3
    ∷ 1 ∷ 0 ∷ 57 ∷ 1 ∷ []

abbrev takes : List ℕ → Bool
takes pkt = true

abbrev forged : List ℕ
forged = Option.get_or (handle takes config fresh packet).1 []

packet_sends : (handle takes config fresh packet).1 ≡ some forged
unfolding handle handle_tcp handle_target inject in_target is_client_hello_start build_fake_hello
packet_sends = refl

packet_bytes : All IsByte packet
packet_bytes = ground arith

handle-Verifies_example : Verifies packet forged
handle-Verifies_example =
    handle-Verifies takes config fresh packet forged packet_bytes (ground arith) (omega arith)
      packet_sends

handle_own_example : (handle takes config fresh forged).1 ≡ none
handle_own_example = handle_own takes takes config config fresh fresh packet forged packet_sends

handle-Sends_example : Sends config packet forged
handle-Sends_example = handle-Sends takes config packet forged fresh packet_sends

empty-IsTable : IsTable []
empty-IsTable = record { short = omega arith; distinct = tt }

note_peer-IsTable_example :
    IsTable (note_peer 2728361985 [])
    × (is_listed (net_of 2728361985) (note_peer 2728361985 []) ≡ true)
note_peer-IsTable_example = note_peer-IsTable 2728361985 [] empty-IsTable

abbrev fake : List ℕ
fake = 0x16 ∷ 0x03 ∷ 0x01 ∷ 0 ∷ 57 ∷ fake_body default_sni

fake_built : build_fake_hello default_sni 1024 ≡ ok fake
unfolding build_fake_hello
fake_built = refl

find_sni-build_fake_hello_example :
    (length fake ≡ 57 + length default_sni)
    × (is_client_hello_start fake ≡ ok true)
    × (find_sni fake ≡ ok (record { offset = 57; size = length default_sni }))
    × (take (length default_sni) (drop 57 fake) ≡ default_sni)
find_sni-build_fake_hello_example = find_sni-build_fake_hello default_sni fake 1024 fake_built

find_split-fake_body_example : find_split (fake_body default_sni) ≡ stop
find_split-fake_body_example = find_split-fake_body default_sni (omega arith) (omega arith)
