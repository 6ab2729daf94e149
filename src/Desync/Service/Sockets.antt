-- ===== src/Desync/Service/Sockets.antt =====
-- The layer's sockets are open exactly while it runs.
use raise_my_freedom.Common.{
  ℕ, ◌≡◌, refl, Bool, true, false, not, Option, none, some, List, ◌∙◌, if◌then◌else◌, ltb, inl, inr,
  ◌⊎◌,
}
use mathlib.Core.Option
use raise_my_freedom.Desync.Packet.{Config, default_sni}
use raise_my_freedom.Desync.Service.{
  Mode, mode_off, mode_fake, mode_fake_tail, Request, System, Service, Answer, started, bad_address,
  read_cidr, open_sockets, configure, check_request, start, halt,
}

-- Both sockets are open while the layer runs, and closed while it does not.
pub record IsTidy (s : Service) : Type 0 where
  pub sniffer_open : s.sniffer ≡ s.running
  pub raw_open : s.raw ≡ s.running

-- What `desync_start` promises of the service that it leaves, by its answer.
pub record Leaves (out : Service × Answer) : Type 0 where
  pub tidy : IsTidy out.0
  pub runs : (out.1 ≡ started) × (out.0.running ≡ true) ⊎ (out.0.running ≡ false)

if-Leaves : (b : Bool) (x y : Service × Answer) → Leaves x → Leaves y → Leaves (if b then x else y)
if-Leaves true x y h k = h
if-Leaves false x y h k = k

stays_down : (s : Service) (a : Answer) → IsTidy s → s.running ≡ false → Leaves (s, a)
stays_down s a h e = record { tidy = h; runs = inr e }

closed : (s : Service) → s.running ≡ false → s.sniffer ≡ false → s.raw ≡ false → IsTidy s
closed s e f g = record { sniffer_open = cc; raw_open = cc }

open_sockets-Leaves :
    (sys : System) (s : Service) (iface : List ℕ)
    → IsTidy s
    → s.running ≡ false
    → Leaves (open_sockets sys s iface)
unfolding open_sockets
open_sockets-Leaves sys s iface h e =
    let raw : s.raw ≡ false = h.raw_open ∙ e in
    if-Leaves (not sys.opens_sniffer) _ _ (stays_down _ _ (closed _ e refl raw) e) (
      if-Leaves (not (sys.knows_iface iface)) _ _ (stays_down _ _ (closed _ e refl raw) e) (
        if-Leaves (not sys.binds) _ _ (stays_down _ _ (closed _ e refl raw) e) (
          if-Leaves (not sys.opens_raw) _ _ (stays_down _ _ (closed _ e refl refl) e) (
            if-Leaves (not sys.starts_thread) _ _ (stays_down _ _ (closed _ refl refl refl) refl)
              (record {
                tidy = record { sniffer_open = refl; raw_open = refl };
                runs = inl (refl, refl);
              })))))

configure-Leaves :
    (sys : System) (s : Service) (req : Request) (iface cidr : List ℕ)
    → IsTidy s
    → s.running ≡ false
    → Leaves (configure sys s req iface cidr)
unfolding configure
configure-Leaves sys s req iface cidr h e = by_address (read_cidr sys cidr)
  where
    keep : (c : Config) → IsTidy (record s { config = c })
    keep c = record { sniffer_open = h.sniffer_open; raw_open = h.raw_open }

    by_address :
        (o : Option (ℕ × ℕ))
        → Leaves (
            let cfg : Config = record s.config {
              dport = req.dport;
              fake_sni = some (Option.get_or req.fake_sni default_sni);
              fake_ttl = if ltb 0 req.fake_ttl then req.fake_ttl else 3;
            } in
            let r : Service × Answer = elim o [
              | none ↦ (record s { config = cfg }, bad_address)
              | some (net, mask) ↦
                  open_sockets sys
                    (record s { config = record cfg { net = net; mask = mask } })
                    iface
            ] in
            r)
    by_address none = stays_down _ _ (keep _) e
    by_address (some (net, mask)) = open_sockets-Leaves sys _ iface (keep _) e

by_mode :
    (m : Mode) (off rest : Service × Answer)
    → Leaves off
    → Leaves rest
    → Leaves (let r : Service × Answer = elim m [ mode_off ↦ off | _ ↦ rest ] in r)
by_mode mode_off off rest a b = a
by_mode mode_fake off rest a b = b
by_mode mode_fake_tail off rest a b = b

check_request-Leaves :
    (sys : System) (s : Service) (req : Request) (iface cidr : Option (List ℕ))
    → IsTidy s
    → s.running ≡ false
    → Leaves (check_request sys s req iface cidr)
unfolding check_request
check_request-Leaves sys s req none cidr h e = stays_down s _ h e
check_request-Leaves sys s req (some iface) none h e = stays_down s _ h e
check_request-Leaves sys s req (some iface) (some cidr) h e =
    if-Leaves (not sys.is_root) _ _ (stays_down s _ h e) (
      by_mode req.mode _ _
        (stays_down _ _ (record { sniffer_open = h.sniffer_open; raw_open = h.raw_open }) e)
        (configure-Leaves sys s req iface cidr h e))

-- A property of both branches, each under what its test says.
if_by :
    {A : Type 0} (P : A → Type 0) (b : Bool) (x y : A)
    → (b ≡ true → P x)
    → (b ≡ false → P y)
    → P (if b then x else y)
if_by P true x y h k = h refl
if_by P false x y h k = k refl

request-Leaves :
    (sys : System) (s : Service) (req : Option Request) → IsTidy s → Leaves (start sys s req)
unfolding start
request-Leaves sys s none h =
    if_by Leaves s.running _ _ (λ e. record { tidy = h; runs = inl (refl, e) })
      (λ e. stays_down s _ h e)
request-Leaves sys s (some req) h =
    if_by Leaves s.running _ _ (λ e. record { tidy = h; runs = inl (refl, e) })
      (λ e. check_request-Leaves sys s req req.iface req.cidr h e)

halt-IsTidy : (s : Service) → IsTidy s → IsTidy (halt s) × ((halt s).running ≡ false)
unfolding halt
halt-IsTidy s t =
    if_by (λ v. IsTidy v × (v.running ≡ false)) s.running _ _
      (λ e. (record { sniffer_open = refl; raw_open = refl }, refl)) (λ e. (t, e))

-- From a state where the sockets are open exactly while the layer runs, `desync_start` leaves such
-- a state, whichever call fails: no socket stays open behind a failure. Afterwards the layer runs
-- with the answer success, or it does not run; and `desync_stop` then leaves it stopped with both
-- sockets closed.
pub start-Leaves :
    (sys : System) (s : Service) (req : Option Request)
    → IsTidy s
    → Leaves (start sys s req)
      × IsTidy (halt (start sys s req).0)
      × ((halt (start sys s req).0).running ≡ false)
start-Leaves sys s req h =
    let l = request-Leaves sys s req h in
    let t = halt-IsTidy (start sys s req).0 l.tidy in (l, t.0, t.1)
