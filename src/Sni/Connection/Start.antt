-- ===== src/Sni/Connection/Start.antt =====
-- The settings of `sni_relay_start` in common/sni_relay.c, with what stands for a field left out.
use raise_my_freedom.Common.{
  ℕ, zero, suc, ◌+◌, ◌≤◌, ◌<◌, ◌≡◌, Bool, true, false, not, Option, none, some, List, [], ◌∷◌, ◌++◌,
  arith, ltb, leb, ◌==◌, if◌then◌else◌, length, take, drop, All, ◌-◌, ◌++◌,
}
use raise_my_freedom.Dns.Query.{codes}
use raise_my_freedom.Sni.Fragment.{whole, part_count, first_cut, extract_client_hello}
use raise_my_freedom.Sni.Upstream.{World, Relay, connect_upstream}
use raise_my_freedom.Sni.Splice.Relayed.{sent, received, PollBytes}
use raise_my_freedom.Sni.Connection.EndToEnd.{Follows, conversation-extract}
use raise_my_freedom.Sni.Splice.{Poll}
use raise_my_freedom.Sni.Connection.{
  Setup, hello, read_hello, shifted, known_orig, name_of, handle_conn, conversation,
}

-- `sni_relay_config_t`: what the settings come from. A negative number counts as 0, which is what
-- the tests for `> 0` make of it.
pub record SniRelayConfig : Type 0 where
  pub port : ℕ
  pub so_mark : ℕ
  pub frag_first_seg : ℕ
  pub primary_dns : Option (List ℕ)
  pub fallback_dns : Option (List ℕ)
  pub fallback_ips : List (List ℕ)
  pub split_data_records : Bool
  pub split_record_size : ℕ
  pub no_split_client_hello : Bool
  pub shift_sni : Bool
  pub data_chunk : ℕ
  pub no_split_handshake_records : Bool
  pub multi_parts : ℕ

-- `g_port`, `g_mark`, the settings of a connection, and those of `connect_upstream`.
pub record Started : Type 0 where
  pub port : ℕ
  pub mark : ℕ
  pub setup : Setup
  pub dns1 : List ℕ
  pub dns2 : List ℕ
  pub fallbacks : List (List ℕ)

abbrev or_default : ℕ → ℕ → ℕ
or_default n d = if ltb 0 n then n else d

-- Up to the first colon.
unfoldable pub before_colon : List ℕ → List ℕ
before_colon [] = []
before_colon (c ∷ s) = let rest = before_colon s in if c == b':' then [] else c ∷ rest

-- The text in a buffer of 32 bytes, without a port.
abbrev dns_server : Option (List ℕ) → List ℕ → List ℕ
dns_server none d = d
dns_server (some s) d = before_colon (take 31 s)

-- The settings; at most 16 fallback addresses.
unfoldable pub settings_of : Option SniRelayConfig → Started
unfolding before_colon
settings_of none = record {
  port = 18444;
  mark = 0x4d5b;
  setup = record {
    split_ch = true;
    shift_sni = false;
    first_seg = 20;
    multi_parts = 2;
    splicing = record {
      split_recs = true;
      split_data = false;
      split_size = 512;
      data_chunk = 4096;
    };
  };
  dns1 = (codes "1.1.1.1");
  dns2 = (codes "8.8.8.8");
  fallbacks = [];
}
settings_of (some cfg) = record {
  port = or_default cfg.port 18444;
  mark = or_default cfg.so_mark 0x4d5b;
  setup = record {
    split_ch = not cfg.no_split_client_hello;
    shift_sni = cfg.shift_sni;
    first_seg = or_default cfg.frag_first_seg 20;
    multi_parts = if leb 2 cfg.multi_parts then cfg.multi_parts else 2;
    splicing = record {
      split_recs = not cfg.no_split_handshake_records;
      split_data = cfg.split_data_records;
      split_size = or_default cfg.split_record_size 512;
      data_chunk = or_default cfg.data_chunk 4096;
    };
  };
  dns1 = dns_server cfg.primary_dns (codes "1.1.1.1");
  dns2 = dns_server cfg.fallback_dns (codes "8.8.8.8");
  fallbacks = take 16 cfg.fallback_ips;
}

-- What the globals hold after `sni_relay_start`: a relay that runs keeps its settings.
unfoldable pub sni_relay_start : Option Started → Option SniRelayConfig → Started
unfolding settings_of
sni_relay_start none cfg = settings_of cfg
sni_relay_start (some running) cfg = running

-- The settings of a connection of a relay that did not run before.
abbrev pub setup_of : Option SniRelayConfig → Setup
setup_of cfg = (sni_relay_start none cfg).setup

-- Whatever the configuration, the loop that forwards always takes a byte at least, a part of a data
-- record holds one at least, the ClientHello becomes two records at least, and there are at most 16
-- fallback addresses.
record IsReady (s : Started) : Type 0 where
  pub chunk : 0 < s.setup.splicing.data_chunk
  pub part : 0 < s.setup.splicing.split_size
  pub parts : 2 ≤ s.setup.multi_parts
  pub few : length s.fallbacks ≤ 16

length-take_at_most : {A : Type 0} (n : ℕ) (xs : List A) → length (take n xs) ≤ n
length-take_at_most zero xs = omega arith
length-take_at_most (suc n) [] = omega arith
length-take_at_most (suc n) (x ∷ xs) = omega (arith, length-take_at_most n xs)

sni_relay_start-IsReady : (cfg : Option SniRelayConfig) → IsReady (sni_relay_start none cfg)
unfolding sni_relay_start
sni_relay_start-IsReady none = record {
  chunk = omega arith;
  part = omega arith;
  parts = omega arith;
  few = omega arith;
}
sni_relay_start-IsReady (some cfg) = record {
  chunk = ground arith;
  part = ground arith;
  parts = ground arith;
  few = length-take_at_most 16 cfg.fallback_ips;
}

-- A relay that did not run before, started with any configuration that does not forbid to split the ClientHello: as long as
-- no send fails, if a connection reads a ClientHello of 46 to 65535 bytes with as many bytes behind
-- the first cut as parts are to come and finds an upstream, then all that the server gets begins
-- with records that `extract_client_hello` joins to that ClientHello, but for the shifted letter.
-- Behind them comes what was read behind the ClientHello, unchanged, and then, `recv` by `recv`, what
-- the client sent later, all of it and in order, but for this. Wherever the loop stands in the bytes
-- of a `recv`, what reads as a whole record with something in it may be replaced by records of its
-- kind whose payloads joined are that record's; with data records cut, what reads there as a data
-- record that goes on behind the bytes of this `recv` passes as it is to the last of them. What was
-- read at first is the beginning of what the client sent.
pub sni_relay_start-conversation :
    (cfg : Option SniRelayConfig) (w : World) (relay : Relay) (accepts : ℕ → Bool) (orig : Option ℕ)
    (sizes stream buf hs : List ℕ) (consumed : ℕ) (rest : List ℕ) (a : ℕ) (polls : List Poll)
    → ((i : ℕ) → accepts i ≡ true)
    → (setup_of cfg).split_ch ≡ true
    → All PollBytes polls
    → read_hello sizes stream [] ≡ (hello buf hs consumed, rest)
    → (connect_upstream w relay (known_orig orig) (name_of (shifted (setup_of cfg).shift_sni hs))).0
      ≡ some a
    → 46 ≤ length hs
    → length hs < 65536
    → (let sent_hs = shifted (setup_of cfg).shift_sni hs in
        let parts = part_count (setup_of cfg).multi_parts (length sent_hs) in
        first_cut sent_hs parts + (parts - 1) ≤ length sent_hs)
    → (let begun = handle_conn (setup_of cfg) w relay accepts orig (hello buf hs consumed) in
        let got = sent true (conversation (setup_of cfg) accepts begun polls) in
        (buf ++ rest ≡ stream)
        × (n : ℕ) × (extract_client_hello got 65536 ≡ whole (shifted (setup_of cfg).shift_sni hs) n)
        × Follows
            (setup_of cfg).splicing.split_data
            (drop consumed buf)
            (received true polls)
            (drop n got))
sni_relay_start-conversation cfg w relay accepts orig sizes stream buf hs consumed rest a polls
      accepting split bytes read found long short room =
    let ready = sni_relay_start-IsReady cfg in
    conversation-extract (sni_relay_start none cfg).setup w relay accepts accepting orig buf hs
      consumed a sizes stream rest polls split ready.chunk ready.part bytes read found long short
      room
