-- ===== src/Constructor/Verdict.antt =====
-- What the verdict of constructor/validate.c says of the report and of the specification.
use raise_my_freedom.Common.{
  ℕ, ◌+◌, ◌≤◌, ◌≡◌, ◌≢◌, inl, inr, Bool, true, false, not, ◌||◌, Option, none, some, List, [], ◌∷◌,
  ◌++◌, arith, leb, ◌==◌, if◌then◌else◌, length, length-append, Bool-cases, All,
}
use raise_my_freedom.SiteConfig.Text.{is_alnum, str_case_eq}
use raise_my_freedom.Constructor.Split.{
  SplitCheck, not_built, not_found, cut_outside, segment_too_long, splits,
}
use raise_my_freedom.Constructor.Report.{
  Spec, Level, error, warn, fine, Message, Diag, Report, max_diag, start, add_diag, die, die_if,
  warn_if, is_empty, has_byte, check_name, check_schema, check_duplicates, check_domains,
  check_same, check_port, check_ports, Network, default_dns, resolve_both, check_resolution,
  report_split, check_network, validate,
}

abbrev IsNotError : Diag → Type 0
IsNotError d = d.level ≢ error

-- The table has 32 entries at most, and an entry of level "error" only where the run is fatal.
pub record IsSound (r : Report) : Type 0 where
  pub short : length r.diags ≤ max_diag
  pub honest : r.fatal ≡ false → All IsNotError r.diags

All-append :
    (ds : List Diag) (d : Diag) → All IsNotError ds → IsNotError d → All IsNotError (ds ++ (d ∷ []))
All-append [] d a h = (h, tt)
All-append (x ∷ ds) d (a, as') h = (a, All-append ds d as' h)

add_diag-IsSound :
    (l : Level) (m : Message) (r : Report) → l ≢ error → IsSound r → IsSound (add_diag l m r)
unfolding add_diag
add_diag-IsSound l m r ne s = elim (Bool-cases (leb max_diag (length r.diags))) [
  | inl e ↦ rw e s
  | inr e ↦ rw e (record {
    short = ground (arith, length-append r.diags (record { level = l; message = m } ∷ []));
    honest = λ ok. All-append r.diags _ (s.honest ok) ne;
  })
]

add_diag-short :
    (l : Level) (m : Message) (r : Report)
    → length r.diags ≤ max_diag
    → length (add_diag l m r).diags ≤ max_diag
unfolding add_diag
add_diag-short l m r h =
    ground (arith, length-append r.diags (record { level = l; message = m } ∷ []))

die-IsSound : (m : Message) (r : Report) → IsSound r → IsSound (die m r)
unfolding die
die-IsSound m r s = record { short = add_diag-short error m r s.short; honest = λ e. cc }

die_if-IsSound : (b : Bool) (m : Message) (r : Report) → IsSound r → IsSound (die_if b m r)
unfolding die_if
die_if-IsSound true m r s = die-IsSound m r s
die_if-IsSound false m r s = s

warn-IsSound : (m : Message) (r : Report) → IsSound r → IsSound (add_diag warn m r)
warn-IsSound m r = add_diag-IsSound warn m r (λ e. cc)

fine-IsSound : (m : Message) (r : Report) → IsSound r → IsSound (add_diag fine m r)
fine-IsSound m r = add_diag-IsSound fine m r (λ e. cc)

warn_if-IsSound : (b : Bool) (m : Message) (r : Report) → IsSound r → IsSound (warn_if b m r)
unfolding warn_if
warn_if-IsSound true m r s = warn-IsSound m r s
warn_if-IsSound false m r s = s

if-IsSound : (b : Bool) (x y : Report) → IsSound x → IsSound y → IsSound (if b then x else y)
if-IsSound true x y h k = h
if-IsSound false x y h k = k

check_name-IsSound : (s : List ℕ) (r : Report) → IsSound r → IsSound (check_name s r)
unfolding check_name
check_name-IsSound [] r h = h
check_name-IsSound (c ∷ s) r h =
    check_name-IsSound s _ (die_if-IsSound (not (is_alnum c || c == b'_' || c == b'-')) _ r h)

check_schema-IsSound : (sp : Spec) (r : Report) → IsSound r → IsSound (check_schema sp r)
unfolding check_schema
check_schema-IsSound sp r h =
    search
      (die_if-IsSound, if-IsSound, warn_if-IsSound, warn-IsSound, die-IsSound, check_name-IsSound)
      depth 12

check_duplicates-IsSound :
    (d : List ℕ) (ks : List (List ℕ)) (r : Report) → IsSound r → IsSound (check_duplicates d ks r)
unfolding check_duplicates
check_duplicates-IsSound d [] r h = h
check_duplicates-IsSound d (k ∷ ks) r h =
    check_duplicates-IsSound d ks _ (warn_if-IsSound (str_case_eq d k) _ r h)

check_domains-IsSound :
    (seen ds : List (List ℕ)) (r : Report) → IsSound r → IsSound (check_domains seen ds r)
unfolding check_domains
check_domains-IsSound seen [] r h = h
check_domains-IsSound seen (d ∷ ds) r h = check_domains-IsSound (seen ++ (d ∷ [])) ds _ (
    if-IsSound (is_empty d) _ _ (warn-IsSound _ r h)
      (check_duplicates-IsSound d seen _ (warn_if-IsSound (not (has_byte b'.' d)) _ r h)))

check_same-IsSound : (p : ℕ) (ks : List ℕ) (r : Report) → IsSound r → IsSound (check_same p ks r)
unfolding check_same
check_same-IsSound p [] r h = h
check_same-IsSound p (k ∷ ks) r h = check_same-IsSound p ks _ (die_if-IsSound (k == p) _ r h)

module _ (port_free : ℕ → Bool) where
  check_port-IsSound :
      (p : ℕ) (before : List ℕ) (r : Report) → IsSound r → IsSound (check_port port_free p before r)
  unfolding check_port
  check_port-IsSound p before r h = search (die_if-IsSound, if-IsSound, check_same-IsSound) depth 8

  check_ports-IsSound : (sp : Spec) (r : Report) → IsSound r → IsSound (check_ports port_free sp r)
  unfolding check_ports
  check_ports-IsSound sp r h =
      check_port-IsSound _ _ _ (check_port-IsSound _ _ _ (check_port-IsSound _ _ r h))

check_resolution-IsSound :
    (net : Network) (primary fallback : List ℕ) (ds : List (List ℕ)) (n : ℕ) (r : Report)
    → IsSound r
    → IsSound (check_resolution net primary fallback ds n r).0
unfolding check_resolution
check_resolution-IsSound net primary fallback [] n r h = h
check_resolution-IsSound net primary fallback (d ∷ ds) n r h =
    by_answer (resolve_both net primary fallback d)
      (λ m s. check_resolution-IsSound net primary fallback ds m s)
  where
    by_answer :
        (o : Option (List ℕ))
        → ((m : ℕ) (s : Report)
            → IsSound s
            → IsSound (check_resolution net primary fallback ds m s).0)
        → IsSound
            (let x : Report × ℕ = elim o [
              | none ↦
                  check_resolution net primary fallback ds n (add_diag warn Message.unresolved r)
              | some ip ↦ check_resolution net primary fallback ds (n + 1) (
                  if net.tcp_answers ip
                  then add_diag fine Message.answers (add_diag fine Message.resolves r)
                  else add_diag warn Message.silent (add_diag fine Message.resolves r))
            ] in
              x).0
    by_answer none k = k n _ (warn-IsSound _ r h)
    by_answer (some ip) k = k (n + 1) _ (
        if-IsSound (net.tcp_answers ip) _ _ (fine-IsSound _ _ (fine-IsSound _ r h))
          (warn-IsSound _ _ (fine-IsSound _ r h)))

report_split-IsSound : (c : SplitCheck) (r : Report) → IsSound r → IsSound (report_split c r)
unfolding report_split
report_split-IsSound not_built r h = die-IsSound _ r h
report_split-IsSound not_found r h = die-IsSound _ r h
report_split-IsSound cut_outside r h = die-IsSound _ r h
report_split-IsSound segment_too_long r h = die-IsSound _ r h
report_split-IsSound (splits cut short slow) r h =
    fine-IsSound _ _ (warn_if-IsSound slow _ _ (warn_if-IsSound short _ r h))

check_network-IsSound :
    (net : Network) (sp : Spec) (r : Report) → IsSound r → IsSound (check_network net sp r)
unfolding check_network
check_network-IsSound net sp r h =
    let primary : List ℕ = if is_empty sp.primary then default_dns else sp.primary in
    let looked = check_resolution-IsSound net primary sp.fallback sp.domains 0 r h in
    if-IsSound ((check_resolution net primary sp.fallback sp.domains 0 r).1 == 0) _ _
      (die-IsSound _ _ looked)
      (if-IsSound (sp.mode == 1) _ _ (report_split-IsSound _ _ looked) (fine-IsSound _ _ looked))

-- For every specification and every network: the report has at most 32 entries, and one of level
-- "error" is in it only if the run is fatal, so a run that answers "ok" reports no error.
pub validate-IsSound : (net : Network) (sp : Spec) → IsSound (validate net sp)
unfolding validate
validate-IsSound net sp =
    let s1 = check_schema-IsSound sp start (record { short = omega arith; honest = λ _. tt }) in
    let s3 = check_ports-IsSound net.port_free sp _ (check_domains-IsSound [] sp.domains _ s1) in
    let r1 = check_schema sp start in
    let r3 = check_ports net.port_free sp (check_domains [] sp.domains r1) in
    if-IsSound r1.fatal _ _ s1 (if-IsSound r3.fatal _ _ s3 (check_network-IsSound net sp r3 s3))
