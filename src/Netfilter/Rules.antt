-- ===== src/Netfilter/Rules.antt =====
-- The operations of netfilter/netfilter_linux.c: the commands that each runs. `exits` says whether
-- a command ends with status 0, by how often it was tried before; the caller is root.
pub mod Cleanup
use raise_my_freedom.Common.{
  ℕ, zero, suc, ◌+◌, Bool, true, false, ◌&&◌, Option, none, some, List, [], ◌∷◌, ◌++◌, ltb,
  if◌then◌else◌, Scan, fault, stop, ok, ◌>>=◌, ◌>>◌, guard,
}
use raise_my_freedom.SiteConfig.Text.{copy, split_at}
use raise_my_freedom.SiteConfig.Save.{print_decimal, print_mark}
use raise_my_freedom.Dns.Query.{codes}
use raise_my_freedom.Netfilter.Pattern.{nf_wire_hex_pattern}
use raise_my_freedom.Netfilter.Registry.{Registry, registry_add, registry_load, registry_remove}

-- The text in front, an argument, and the rest of the command.
infixr 64 ◌▹◌
abbrev ◌▹◌ : List ℕ → List ℕ → List ℕ
a ▹ b = a ++ b

-- What an operation leaves: the commands it ran, whether it answered 0, and the registry.
pub record Outcome : Type 0 where
  pub commands : List (List ℕ)
  pub succeeds : Bool
  pub registry : Registry

unfoldable pub create_command : List ℕ → List ℕ
create_command chain = copy 256 (codes "iptables -t nat -N " ▹ chain ▹ codes " 2>/dev/null || true")

-- `nf_chain_create`
unfoldable pub nf_chain_create : Bool → List ℕ → Registry → Outcome
unfolding create_command
nf_chain_create opens chain r = record {
  commands = create_command chain ∷ [];
  succeeds = true;
  registry = registry_add opens chain r;
}

-- `nf_chain_flush`
unfoldable pub flush_command : List ℕ → List ℕ
flush_command chain = copy 256 (codes "iptables -t nat -F " ▹ chain ▹ codes " 2>/dev/null || true")

-- A loop that runs a command until it fails, `left` times at most.
unfoldable pub run_while : (ℕ → List ℕ → Bool) → List ℕ → ℕ → ℕ → List (List ℕ)
run_while exits command zero tried = []
run_while exits command (suc left) tried =
    let more = run_while exits command left (tried + 1) in
    if exits tried command then command ∷ more else command ∷ []

unfoldable pub unhook_command : List ℕ → List ℕ → List ℕ
unhook_command hook chain =
    copy 512 (codes "iptables -t nat -D " ▹ hook ▹ codes " -j " ▹ chain ▹ codes " 2>/dev/null")

unfoldable pub drop_command : List ℕ → List ℕ
drop_command chain = copy 512 (
    codes "iptables -t nat -F "
    ▹ chain
    ▹ codes " 2>/dev/null || true; iptables -t nat -X "
    ▹ chain
    ▹ codes " 2>/dev/null || true")

-- `nf_chain_destroy`
unfoldable pub nf_chain_destroy : (ℕ → List ℕ → Bool) → Bool → List ℕ → Registry → Outcome
unfolding run_while unhook_command drop_command
nf_chain_destroy exits opens chain r = record {
  commands =
      run_while exits (unhook_command (codes "OUTPUT") chain) 64 0
      ++ (run_while exits (unhook_command (codes "PREROUTING") chain) 64 0
          ++ (drop_command chain ∷ []));
  succeeds = true;
  registry = registry_remove opens chain r;
}

-- `nf_hook_output`; a position of 0 stands for all that are not above 0.
unfoldable pub hook_output_command : List ℕ → ℕ → List ℕ
hook_output_command chain pos =
    let place = if ltb 0 pos then pos else 1 in
    copy 512 (
      codes "iptables -t nat -D OUTPUT -j "
      ▹ chain
      ▹ codes " 2>/dev/null || true; iptables -t nat -I OUTPUT "
      ▹ print_decimal place
      ▹ codes " -j "
      ▹ chain)

-- `nf_hook_prerouting`
unfoldable pub hook_prerouting_command : List ℕ → List ℕ
hook_prerouting_command chain = copy 512 (
    codes "iptables -t nat -C PREROUTING -j "
    ▹ chain
    ▹ codes " 2>/dev/null || iptables -t nat -A PREROUTING -j "
    ▹ chain)

-- `nf_exempt_own_traffic`
unfoldable pub exempt_command : List ℕ → List ℕ
exempt_command chain =
    let own = print_mark 0x4d50 ▹ codes "/" ▹ print_mark 0xfff0 in
    copy 512 (
      codes "iptables -t nat -C "
      ▹ chain
      ▹ codes " -m mark --mark "
      ▹ own
      ▹ codes " -j RETURN 2>/dev/null || iptables -t nat -I "
      ▹ chain
      ▹ codes " 1 -m mark --mark "
      ▹ own
      ▹ codes " -j RETURN")

-- `rule_port`: a range, a redirection to a port, or a bare target. `to_port` is `none` for -1.
unfoldable pub rule_port : List ℕ → List ℕ → List ℕ → ℕ → Option ℕ → List ℕ → List ℕ
rule_port chain proto dest dport to_port target =
    let rule =
      copy 64 chain
      ▹ codes " -p "
      ▹ proto
      ▹ codes " -d "
      ▹ copy 128 dest
      ▹ codes " --dport "
      ▹ print_decimal dport
      ▹ codes " -j " in
    let command = λ (goal : List ℕ). copy 1400 (
      codes "iptables -t nat -C "
      ▹ rule
      ▹ goal
      ▹ codes " 2>/dev/null || iptables -t nat -A "
      ▹ rule
      ▹ goal) in
    elim (split_at b'/' dest).1 [
      | some bits ↦ command target
      | none ↦ elim to_port [
        | none ↦ command target
        | some port ↦
            if ltb 0 port
            then command (codes "REDIRECT --to-ports " ▹ print_decimal port)
            else command target
      ]
    ]

unfoldable pub nf_tcp_redirect : List ℕ → List ℕ → ℕ → ℕ → List ℕ
unfolding rule_port
nf_tcp_redirect chain dest dport to_port =
    rule_port chain (codes "tcp") dest dport (some to_port) (codes "REDIRECT")

unfoldable pub nf_udp_redirect : List ℕ → List ℕ → ℕ → ℕ → List ℕ
unfolding rule_port
nf_udp_redirect chain dest dport to_port =
    rule_port chain (codes "udp") dest dport (some to_port) (codes "REDIRECT")

unfoldable pub nf_tcp_deny : List ℕ → List ℕ → ℕ → List ℕ
unfolding rule_port
nf_tcp_deny chain dest dport = rule_port chain (codes "tcp") dest dport none (codes "DROP")

unfoldable pub nf_udp_deny : List ℕ → List ℕ → ℕ → List ℕ
unfolding rule_port
nf_udp_deny chain dest dport = rule_port chain (codes "udp") dest dport none (codes "DROP")

-- `nf_dns_redirect`; `stop` is the answer -1.
unfoldable pub nf_dns_redirect : List ℕ → List ℕ → ℕ → Scan (List ℕ)
nf_dns_redirect chain domain to_port = do
  hex ← nf_wire_hex_pattern domain 1100
  let rule =
      copy 64 chain
      ▹ codes " -p udp --dport 53 -m string --algo bm --hex-string \"|"
      ▹ copy 1104 hex
      ▹ codes "|\" -j DNAT --to-destination 127.0.0.1:"
      ▹ print_decimal to_port
  ok (
      copy 3072
        (codes "iptables -t nat -C " ▹ rule ▹ codes " 2>/dev/null || iptables -t nat -A " ▹ rule))

-- `nf_dns_redirect_all`
unfoldable pub dns_all_command : List ℕ → ℕ → List ℕ
dns_all_command chain to_port =
    let rule =
      chain
      ▹ codes " -p udp --dport 53 -j DNAT --to-destination 127.0.0.1:"
      ▹ print_decimal to_port in
    copy 512
      (codes "iptables -t nat -C " ▹ rule ▹ codes " 2>/dev/null || iptables -t nat -A " ▹ rule)

-- What `nf_cleanup_all` runs for a chain.
unfoldable pub cleanup_command : List ℕ → List ℕ
cleanup_command chain =
    let ch = copy 64 chain in
    copy 512 (
      codes "iptables -t nat -D OUTPUT -j "
      ▹ ch
      ▹ codes " 2>/dev/null || true; iptables -t nat -D PREROUTING -j "
      ▹ ch
      ▹ codes " 2>/dev/null || true; iptables -t nat -F "
      ▹ ch
      ▹ codes " 2>/dev/null || true; iptables -t nat -X "
      ▹ ch
      ▹ codes " 2>/dev/null || true")

unfoldable pub cleanup_commands : List (List ℕ) → List (List ℕ)
cleanup_commands [] = []
cleanup_commands (c ∷ cs) = cleanup_command c ∷ cleanup_commands cs

-- `nf_cleanup_all`
unfoldable pub nf_cleanup_all : Registry → Outcome
unfolding cleanup_commands
nf_cleanup_all r = record {
  commands = cleanup_commands (registry_load r).chains;
  succeeds = true;
  registry = record { chains = []; file = none };
}
