-- ===== src/Desync/Service.antt =====
-- Starting and stopping the layer: `desync_start` and `desync_stop` of desync/desync.c.
pub mod Sockets
use raise_my_freedom.Common.{
  ℕ, zero, suc, ◌+◌, ◌-◌, ◌*◌, ◌%◌, ◌^◌, ◌≤◌, Bool, true, false, not, ◌||◌, Option, none, some,
  List, [], ltb, ◌==◌, if◌then◌else◌,
}
use mathlib.Core.Option
use raise_my_freedom.SiteConfig.Text.{copy, split_at}
use raise_my_freedom.Constructor.Json.{atoi}
use raise_my_freedom.Dns.Query.{codes}
use raise_my_freedom.Desync.Packet.{Config, Stats, Layer, default_sni, with_stats}

-- `desync_mode_t`
pub data Mode : Type 0 where
  mode_off mode_fake mode_fake_tail : Mode

-- `desync_mode_name`
unfoldable pub mode_name : Mode → List ℕ
mode_name mode_fake = codes "fake"
mode_name mode_fake_tail = codes "fake-tail"
mode_name mode_off = codes "off"

-- What the caller of `desync_start` passes; a null pointer is `none`.
pub record Request : Type 0 where
  pub iface : Option (List ℕ)
  pub cidr : Option (List ℕ)
  pub dport : ℕ
  pub fake_sni : Option (List ℕ)
  pub fake_ttl : ℕ
  pub mode : Mode

-- The system: `inet_pton` to an address in host order, and which calls succeed.
pub record System : Type 0 where
  pub parse : List ℕ → Option ℕ
  pub is_root : Bool
  pub opens_sniffer : Bool
  pub knows_iface : List ℕ → Bool
  pub binds : Bool
  pub opens_raw : Bool
  pub starts_thread : Bool

-- `g_run`, `g_sock >= 0`, `g_raw >= 0`, `g_cfg` with the network, and the layer's counters.
pub record Service : Type 0 where
  pub running : Bool
  pub sniffer : Bool
  pub raw : Bool
  pub config : Config
  pub layer : Layer

-- The texts that `set_err` leaves, and success.
pub data Answer : Type 0 where
  started no_iface no_root is_off bad_address no_sniffer bad_iface bind_failed no_raw no_thread :
      Answer

-- `bits == 0 ? 0 : htonl(0xFFFFFFFFu << (32 - bits))`, in host order.
unfoldable pub mask_of : ℕ → ℕ
mask_of bits = if bits == 0 then 0 else (0xFFFFFFFF * 2 ^ (32 - bits)) % 2 ^ 32

-- The address and the number of bits; `none` where the text is refused.
unfoldable pub read_cidr : System → List ℕ → Option (ℕ × ℕ)
unfolding mask_of
read_cidr sys cidr =
    let parts = split_at b'/' (copy 64 cidr) in
    let bits : ℕ = elim parts.1 [ none ↦ 32 | some text ↦ atoi text ] in
    elim (sys.parse parts.0) [
      | none ↦ none
      | some a ↦ if ltb 32 bits then none else some (a, mask_of bits)
    ]

-- From the sockets on; `iface` is the interface and `s` has its configuration already.
unfoldable pub open_sockets : System → Service → List ℕ → Service × Answer
open_sockets sys s iface =
    let s1 = record s { sniffer = true } in
    let zeros : Stats = record {
      seen = 0;
      matched = 0;
      hellos = 0;
      injected = 0;
      no_fake = 0;
      skipped = 0;
    } in
    let s2 = record s {
      sniffer = true;
      raw = true;
      running = true;
      layer = with_stats s.layer zeros;
    } in
    if not sys.opens_sniffer
    then (record s { sniffer = false }, no_sniffer)
    else if not (sys.knows_iface iface)
    then (record s1 { sniffer = false }, bad_iface)
    else if not sys.binds
    then (record s1 { sniffer = false }, bind_failed)
    else if not sys.opens_raw
    then (record s1 { sniffer = false; raw = false }, no_raw)
    else if not sys.starts_thread
    then (record s2 { running = false; sniffer = false; raw = false }, no_thread)
    else (s2, started)

-- From the copy of the configuration on.
unfoldable pub configure : System → Service → Request → List ℕ → List ℕ → Service × Answer
configure sys s req iface cidr =
    let cfg : Config = record s.config {
      dport = req.dport;
      fake_sni = some (Option.get_or req.fake_sni default_sni);
      fake_ttl = if ltb 0 req.fake_ttl then req.fake_ttl else 3;
    } in
    let s1 = record s { config = cfg } in
    elim (read_cidr sys cidr) [
      | none ↦ (s1, bad_address)
      | some (net, mask) ↦
          open_sockets sys (record s { config = record cfg { net = net; mask = mask } }) iface
    ]

-- The tests of the request, with its interface and address.
unfoldable pub check_request :
    System → Service → Request → Option (List ℕ) → Option (List ℕ) → Service × Answer
check_request sys s req none cidr = (s, no_iface)
check_request sys s req (some iface) none = (s, no_iface)
check_request sys s req (some iface) (some cidr) =
    let copied : Config = record s.config {
      dport = req.dport;
      fake_sni = req.fake_sni;
      fake_ttl = req.fake_ttl;
    } in
    if not sys.is_root then (s, no_root) else elim req.mode [
      | mode_off ↦ (record s { config = copied }, is_off)
      | _ ↦ configure sys s req iface cidr
    ]

-- `desync_start`; the answer is 0 for `started` and -1 otherwise.
unfoldable pub start : System → Service → Option Request → Service × Answer
unfolding check_request
start sys s none = if s.running then (s, started) else (s, no_iface)
start sys s (some req) =
    if s.running then (s, started) else check_request sys s req req.iface req.cidr

-- `desync_stop`
unfoldable pub halt : Service → Service
halt s = if s.running then record s { running = false; sniffer = false; raw = false } else s
