-- ===== src/Examples/Network.antt =====
-- Runs of the code around the network: the relay's upstream, the DoH resolvers, the layer's start.
use raise_my_freedom.Common.{
  ℕ, ◌≡◌, ◌⊎◌, refl, true, false, Option, none, some, List, [], ◌∷◌, ◌>>=◌, ◌==◌,
}
use raise_my_freedom.Sni.Upstream.{
  World, Relay, relay_ip_allowed, is_candidate, add_unique, connect_upstream,
}
use raise_my_freedom.Sni.Upstream.Allowed.{IsAllowed, connect_upstream-IsAllowed}
use raise_my_freedom.Dns.Answer.{first_of_list}
use raise_my_freedom.Dns.Transport.{doh_resolve_a_multi, doh_resolve_a}
use raise_my_freedom.Dns.Transport.Agree.{doh_resolve_a-doh_resolve_a_multi}
use raise_my_freedom.Desync.Service.{mode_fake, Request, System, Service, start, halt}
use raise_my_freedom.Desync.Service.Sockets.{IsTidy, Leaves, start-Leaves}

abbrev first_byte : List ℕ → Option ℕ
first_byte [] = none
first_byte (c ∷ s) = some c

-- Addresses are written with one byte; only the second round connects, and to 8 only.
abbrev world : World
world = record {
  parse = first_byte;
  print = λ a. a ∷ [];
  validates = λ ip. true;
  doh = λ name. some (7 ∷ []);
  udp = λ server name. some (8 ∷ []);
  lookup = λ name. [];
  connects = λ round a. a == 8;
}

abbrev relay : Relay
relay = record { last_good = none; dns1 = []; dns2 = []; fallbacks = (8 ∷ []) ∷ [] }

abbrev name : Option (List ℕ)
name = some (b'a' ∷ [])

connects_to_fallback : (connect_upstream world relay (some 5) name).0 ≡ some 8
unfolding connect_upstream add_unique relay_ip_allowed is_candidate
connects_to_fallback = refl

connect_upstream-IsAllowed_example :
    IsAllowed world 8 × ((world.connects 0 8 ≡ true) ⊎ (world.connects 1 8 ≡ true))
connect_upstream-IsAllowed_example =
    connect_upstream-IsAllowed world relay (some 5) name 8 connects_to_fallback

abbrev fetch : List ℕ → List ℕ → Option (List ℕ)
fetch url resolve = some (
    0xAB ∷ 0xCD ∷ 0x81 ∷ 0x80 ∷ 0 ∷ 1 ∷ 0 ∷ 1 ∷ 0 ∷ 0 ∷ 0 ∷ 0 ∷ 1 ∷ b'a' ∷ 2 ∷ b'i' ∷ b'o' ∷ 0 ∷ 0
    ∷ 1 ∷ 0 ∷ 1 ∷ 0xC0 ∷ 12 ∷ 0 ∷ 1 ∷ 0 ∷ 1 ∷ 0 ∷ 0 ∷ 0 ∷ 60 ∷ 0 ∷ 4 ∷ 93 ∷ 184 ∷ 216 ∷ 34 ∷ [])

abbrev a_io : List ℕ
a_io = b'a' ∷ b'.' ∷ b'i' ∷ b'o' ∷ []

doh_resolve_a-doh_resolve_a_multi_example :
    doh_resolve_a fetch a_io ≡ (doh_resolve_a_multi fetch a_io 8 >>= first_of_list)
doh_resolve_a-doh_resolve_a_multi_example = doh_resolve_a-doh_resolve_a_multi fetch a_io

-- A system where all succeeds but the raw socket.
abbrev system : System
system = record {
  parse = first_byte;
  is_root = true;
  opens_sniffer = true;
  knows_iface = λ iface. true;
  binds = true;
  opens_raw = false;
  starts_thread = true;
}

abbrev service : Service
service = record {
  running = false;
  sniffer = false;
  raw = false;
  config = record { dport = 0; fake_sni = none; fake_ttl = 0; net = 0; mask = 0 };
  layer = record {
    stats = record { seen = 0; matched = 0; hellos = 0; injected = 0; no_fake = 0; skipped = 0 };
    proto = record {
      tcp = 0;
      udp = 0;
      icmp = 0;
      other_proto = 0;
      not_v4 = 0;
      long_hdr = 0;
      short_pkt = 0;
      to_us = 0;
      to_other = 0;
      outgoing = 0;
      no_sni = 0;
    };
    top = [];
  };
}

abbrev request : Request
request = record {
  iface = some a_io;
  cidr = some (b'1' ∷ []);
  dport = 443;
  fake_sni = none;
  fake_ttl = 0;
  mode = mode_fake;
}

service-IsTidy : IsTidy service
service-IsTidy = record { sniffer_open = refl; raw_open = refl }

start-Leaves_example :
    Leaves (start system service (some request))
    × IsTidy (halt (start system service (some request)).0)
    × ((halt (start system service (some request)).0).running ≡ false)
start-Leaves_example = start-Leaves system service (some request) service-IsTidy
