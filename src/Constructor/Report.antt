-- ===== src/Constructor/Report.antt =====
-- The report of constructor/validate.c and the checks of its `main`. Ints are 32-bit patterns. The
-- network's answers are parameters. A message is a constructor where the source has its text.
use raise_my_freedom.Common.{
  ℕ, suc, ◌+◌, ◌^◌, Bool, true, false, not, ◌&&◌, ◌||◌, Option, none, some, List, [], ◌∷◌, ◌++◌,
  ltb, leb, ◌==◌, if◌then◌else◌, length,
}
use raise_my_freedom.SiteConfig.Text.{is_alnum, str_case_eq}
use raise_my_freedom.Constructor.Split.{
  SplitCheck, not_built, not_found, cut_outside, segment_too_long, splits, check_split,
}

-- `spec`
pub record Spec : Type 0 where
  pub name : List ℕ
  pub chain : List ℕ
  pub domains : List (List ℕ)
  pub dns_port : ℕ
  pub relay_port : ℕ
  pub mark : ℕ
  pub primary : List ℕ
  pub fallback : List ℕ
  pub mode : ℕ
  pub frag_first_seg : ℕ
  pub frag_delay_ms : ℕ
  pub mt_port : ℕ

pub data Level : Type 0 where
  error warn fine : Level

pub data Message : Type 0 where
  no_name bad_name_byte no_domains too_many_domains no_chain bad_chain : Message
  no_dns_port no_relay_port no_mt_port bad_primary : Message
  empty_domain no_dot duplicate : Message
  low_port high_port same_ports busy_port : Message
  resolves answers silent unresolved nothing_resolved : Message
  hello_not_built name_not_found cut_outside_hello segment_too_big : Message
  short_segment bad_delay good_cut no_fragmentation : Message

pub record Diag : Type 0 where
  pub level : Level
  pub message : Message

-- `diag`, `diag_n` and `fatal`.
pub record Report : Type 0 where
  pub diags : List Diag
  pub fatal : Bool

abbrev pub max_diag : ℕ
max_diag = 32

abbrev pub start : Report
start = record { diags = []; fatal = false }

-- `add_diag`
unfoldable pub add_diag : Level → Message → Report → Report
add_diag l m r =
    if leb max_diag (length r.diags)
    then r
    else record r { diags = r.diags ++ (record { level = l; message = m } ∷ []) }

-- `die`
unfoldable pub die : Message → Report → Report
unfolding add_diag
die m r = record (add_diag error m r) { fatal = true }

-- `if (c) die(…)`
unfoldable pub die_if : Bool → Message → Report → Report
die_if c m r = if c then die m r else r

unfoldable pub warn_if : Bool → Message → Report → Report
warn_if c m r = if c then add_diag warn m r else r

abbrev pub is_empty : List ℕ → Bool
is_empty [] = true
is_empty (c ∷ s) = false

unfoldable pub has_byte : ℕ → List ℕ → Bool
has_byte b [] = false
has_byte b (c ∷ s) = c == b || has_byte b s

-- An int that is zero or negative.
abbrev pub not_positive : ℕ → Bool
not_positive w = w == 0 || leb (2 ^ 31) w

unfoldable pub check_name : List ℕ → Report → Report
check_name [] r = r
check_name (c ∷ s) r =
    check_name s (die_if (not (is_alnum c || c == b'_' || c == b'-')) bad_name_byte r)

-- `valid_token`
unfoldable pub token_bytes : List ℕ → Bool
token_bytes [] = true
token_bytes (c ∷ s) = (is_alnum c || c == b'_') && token_bytes s

abbrev pub valid_token : List ℕ → Bool
valid_token s = not (is_empty s) && token_bytes s

abbrev pub no_items : List (List ℕ) → Bool
no_items [] = true
no_items (d ∷ ds) = false

abbrev pub count_items : List (List ℕ) → ℕ
count_items [] = 0
count_items (d ∷ ds) = suc (count_items ds)

-- Step 1 of `main`: the schema.
unfoldable pub check_schema : Spec → Report → Report
check_schema sp r =
    let r1 = if is_empty sp.name then die no_name r else check_name sp.name r in
    let r2 = die_if (no_items sp.domains) no_domains r1 in
    let r2' = warn_if (ltb 64 (count_items sp.domains)) too_many_domains r2 in
    let r3 =
      if is_empty sp.chain
      then add_diag warn no_chain r2'
      else die_if (not (valid_token sp.chain)) bad_chain r2' in
    let r4 = die_if (not (sp.mode == 2) && not_positive sp.dns_port) no_dns_port r3 in
    let r5 = die_if (not (sp.mode == 0) && not_positive sp.relay_port) no_relay_port r4 in
    let r6 = die_if (sp.mode == 2 && not_positive sp.mt_port) no_mt_port r5 in
    die_if (not (is_empty sp.primary) && not (has_byte b'.' sp.primary)) bad_primary r6

-- The duplicates of one domain among those in front of it.
unfoldable pub check_duplicates : List ℕ → List (List ℕ) → Report → Report
check_duplicates d [] r = r
check_duplicates d (k ∷ ks) r = check_duplicates d ks (warn_if (str_case_eq d k) duplicate r)

-- Step 2: the domains, with those that were looked at.
unfoldable pub check_domains : List (List ℕ) → List (List ℕ) → Report → Report
check_domains seen [] r = r
check_domains seen (d ∷ ds) r = check_domains (seen ++ (d ∷ [])) ds (
    if is_empty d
    then add_diag warn empty_domain r
    else check_duplicates d seen (warn_if (not (has_byte b'.' d)) no_dot r))

-- The ports in front that are equal to this one.
unfoldable pub check_same : ℕ → List ℕ → Report → Report
check_same p [] r = r
check_same p (k ∷ ks) r = check_same p ks (die_if (k == p) same_ports r)

-- One port of step 3.
unfoldable pub check_port : (ℕ → Bool) → ℕ → List ℕ → Report → Report
check_port port_free p before r =
    let r1 = die_if (ltb p 1024) low_port r in
    let r2 = die_if (ltb 65535 p) high_port r1 in
    let r3 = check_same p before r2 in
    if not_positive p then r else die_if (not (port_free p)) busy_port r3

-- Step 3: the three ports.
unfoldable pub check_ports : (ℕ → Bool) → Spec → Report → Report
check_ports port_free sp r =
    let r1 = check_port port_free sp.dns_port [] r in
    let r2 = check_port port_free sp.relay_port (sp.dns_port ∷ []) r1 in
    check_port port_free sp.mt_port (sp.dns_port ∷ sp.relay_port ∷ []) r2

-- What the network answers: whether a name resolves through a resolver, to an address that is
-- not empty, and whether that address takes a connection on port 443.
pub record Network : Type 0 where
  pub port_free : ℕ → Bool
  pub resolve : List ℕ → List ℕ → Option (List ℕ)
  pub tcp_answers : List ℕ → Bool

-- The first resolver, then the second if one is given.
unfoldable pub resolve_both : Network → List ℕ → List ℕ → List ℕ → Option (List ℕ)
resolve_both net primary fallback d = elim (net.resolve primary d) [
  | some ip ↦ some ip
  | none ↦ if is_empty fallback then none else net.resolve fallback d
]

-- Steps 4 and 5: the report and how many names resolved.
unfoldable pub check_resolution :
    Network → List ℕ → List ℕ → List (List ℕ) → ℕ → Report → Report × ℕ
check_resolution net primary fallback [] resolved r = (r, resolved)
check_resolution net primary fallback (d ∷ ds) resolved r =
    let found = resolve_both net primary fallback d in
    let next = check_resolution net primary fallback ds in
    elim found [
      | none ↦ next resolved (add_diag warn unresolved r)
      | some ip ↦ next (resolved + 1) (
          if net.tcp_answers ip
          then add_diag fine answers (add_diag fine resolves r)
          else add_diag warn silent (add_diag fine resolves r))
    ]

-- Step 6: what `check_split` reports.
unfoldable pub report_split : SplitCheck → Report → Report
report_split not_built r = die hello_not_built r
report_split not_found r = die name_not_found r
report_split cut_outside r = die cut_outside_hello r
report_split segment_too_long r = die segment_too_big r
report_split (splits cut short slow) r =
    add_diag fine good_cut (warn_if slow bad_delay (warn_if short short_segment r))

-- "1.1.1.1"
abbrev pub default_dns : List ℕ
default_dns = b'1' ∷ b'.' ∷ b'1' ∷ b'.' ∷ b'1' ∷ b'.' ∷ b'1' ∷ []

abbrev pub first_domain : List (List ℕ) → List ℕ
first_domain [] = []
first_domain (d ∷ ds) = d

-- The steps of `main` behind the ports.
unfoldable pub check_network : Network → Spec → Report → Report
check_network net sp r =
    let primary = if is_empty sp.primary then default_dns else sp.primary in
    let looked = check_resolution net primary sp.fallback sp.domains 0 r in
    if looked.1 == 0
    then die nothing_resolved looked.0
    else if sp.mode == 1
    then report_split (check_split (first_domain sp.domains) sp.frag_first_seg sp.frag_delay_ms)
        looked.0
    else add_diag fine no_fragmentation looked.0

-- `main`, from the specification to the report; `fatal` is its exit status.
unfoldable pub validate : Network → Spec → Report
validate net sp =
    let r1 = check_schema sp start in
    let r3 = check_ports net.port_free sp (check_domains [] sp.domains r1) in
    if r1.fatal then r1 else if r3.fatal then r3 else check_network net sp r3

-- The counts of errors, warnings and successes that `main` prints last.
unfoldable pub summary : List Diag → ℕ × ℕ × ℕ
summary [] = (0, 0, 0)
summary (d ∷ ds) =
    let (errs, warns, oks) = summary ds in
    elim d.level [
      | error ↦ (errs + 1, warns, oks)
      | warn ↦ (errs, warns + 1, oks)
      | fine ↦ (errs, warns, oks + 1)
    ]
