-- ===== src/Bypass/Start/Outcome.antt =====
-- What a start leaves: a bypass that runs, or nothing.
use raise_my_freedom.Common.{
  ℕ, ◌≡◌, refl, Bool, true, false, not, ◌||◌, List, [], ◌∷◌, arith, if◌then◌else◌, All, Bool-cases,
  inl, inr,
}
use raise_my_freedom.Bypass.Pins.{Pin}
use raise_my_freedom.Bypass.Choose.{World, Site, gather_pins, is_foreign, examine, site_doctor}
use raise_my_freedom.Bypass.Choose.Allowed.{
  TakesShort, IsPinned, IsHealthy, gather_pins-IsPinned, not_dropped, dropped,
}
use raise_my_freedom.Bypass.Start.{
  System, State, acceptable, site_bypass_stop, previous_pins, install, examined, pinned, cleared,
  site_bypass_start, site_bypass_active,
}

-- Nothing runs and no rule is left.
pub record IsQuiet (s : State) : Type 0 where
  pub inactive : s.active ≡ false
  pub no_relay : s.relay_runs ≡ false
  pub no_answerer : s.dns_runs ≡ false
  pub no_rules : s.rules ≡ false

-- An inactive state is quiet.
abbrev pub IsConsistent : State → Type 0
IsConsistent s = s.active || s.dns_runs ≡ false → IsQuiet s

-- What the doctor makes of the pins it is given: those whose address answers without showing another
-- name's certificate stay, in their order, and the others go.
pub data Sifted (w : World) : List Pin → List Pin → Type 0 where
  no_more : Sifted w [] []
  stays :
      {pins kept : List Pin} (p : Pin)
      → IsHealthy w p
      → Sifted w pins kept
      → Sifted w (p ∷ pins) (p ∷ kept)
  goes :
      {pins kept : List Pin} (p : Pin)
      → ¬ IsHealthy w p
      → Sifted w pins kept
      → Sifted w (p ∷ pins) kept

-- How a start ends: with a bypass that runs, with the rules if the process is `root`, and with the
-- sifted ones of the pins that were chosen while the answerer has them all; or with nothing that
-- runs.
pub data Outcome (root : Bool) (w : World) (chosen : List Pin) : Bool × State → Type 0 where
  up :
      {s : State}
      → site_bypass_active s ≡ true
      → s.rules ≡ root
      → s.served ≡ chosen
      → All (IsPinned w) chosen
      → Sifted w chosen s.pins
      → Outcome root w chosen (true, s)
  down : {s : State} → IsQuiet s → Outcome root w chosen (false, s)

examine-Sifted :
    (w : World) (pins : List Pin) (tested quiet : ℕ)
    → Sifted w pins (examine w pins tested quiet).kept
unfolding examine
examine-Sifted w [] tested quiet = no_more
examine-Sifted w (p ∷ pins) tested quiet =
    elim (Bool-cases (not (w.tcp 1 p.ip) || is_foreign (w.cert 1 p.ip p.domain))) [
      | inl d ↦ rw d (goes p (dropped w p d) (examine-Sifted w pins _ _))
      | inr d ↦ rw d (stays p (not_dropped w p is_foreign refl d) (examine-Sifted w pins _ _))
    ]

site_bypass_stop-IsQuiet : (s : State) → IsQuiet (site_bypass_stop s)
unfolding site_bypass_stop
site_bypass_stop-IsQuiet s = record {
  inactive = refl;
  no_relay = refl;
  no_answerer = refl;
  no_rules = refl;
}

runs :
    (s : State)
    → s.active ≡ true
    → s.dns_runs ≡ true
    → (if s.relay_on then s.relay_runs else true) ≡ true
    → site_bypass_active s ≡ true
unfolding site_bypass_active
runs s a d r = rw (a, d, r) refl

install-Outcome :
    (sys : System) (w : World) (use_relay : Bool) (chosen : List Pin) (s : State)
    → s.dns_runs ≡ true
    → s.served ≡ chosen
    → All (IsPinned w) chosen
    → Sifted w chosen s.pins
    → Outcome sys.root w chosen (install sys use_relay s)
unfolding install
install-Outcome sys w false chosen s dns served h k = up (runs _ refl dns refl) refl served h k
install-Outcome sys w true chosen s dns served h k = elim (Bool-cases sys.relay_starts) [
  | inl e ↦ rw e (up (runs _ refl dns refl) refl served h k)
  | inr e ↦ rw e (down (site_bypass_stop-IsQuiet (record s { rules = sys.root })))
]

pinned-Outcome :
    (sys : System) (w : World) (site : Site) (pins : List Pin) (blocked : ℕ) (s : State)
    → All (IsPinned w) pins
    → IsQuiet s
    → Outcome sys.root w pins (pinned sys w site (pins, blocked) s)
unfolding pinned examined site_doctor
pinned-Outcome sys w site [] blocked s h q = down (record {
  inactive = q.inactive;
  no_relay = q.no_relay;
  no_answerer = q.no_answerer;
  no_rules = q.no_rules;
})
pinned-Outcome sys w site (p ∷ pins) blocked s h q = elim (Bool-cases sys.dns_starts) [
  | inl e ↦
      rw e (install-Outcome sys w _ (p ∷ pins) _ refl refl h (examine-Sifted w (p ∷ pins) 0 0))
  | inr e ↦ rw e (
      down (record {
        inactive = q.inactive;
        no_relay = q.no_relay;
        no_answerer = q.no_answerer;
        no_rules = q.no_rules;
      }))
]

cleared-IsQuiet : (s : State) → s.relay_runs ≡ false → IsQuiet (cleared s)
cleared-IsQuiet s e = record { inactive = refl; no_relay = e; no_answerer = refl; no_rules = refl }

relay_stopped :
    (b : Bool) (s : State)
    → (b ≡ false → IsQuiet s)
    → (if b then site_bypass_stop s else s).relay_runs ≡ false
unfolding site_bypass_stop
relay_stopped true s h = refl
relay_stopped false s h = (h refl).no_relay

-- A start with acceptable settings, from a state that is quiet unless it is active, where
-- `inet_pton` takes no text of 64 characters or more, ends in one of two ways. It succeeds: then
-- the bypass is active, the rules are there if the process is root, each pin that was chosen has a
-- name and an address that the module allows, and the answerer serves all of them; the bypass keeps
-- exactly those of them, in their order, whose address answers the doctor and shows no other name's
-- certificate, which may be none. Or it fails: then nothing runs and no rule is left.
pub site_bypass_start-Outcome :
    (sys : System) (w : World) (site : Site) (s : State)
    → TakesShort w
    → acceptable site ≡ true
    → IsConsistent s
    → Outcome sys.root w
        (gather_pins w site (previous_pins site s.file) site.domains [] 0).0
        (site_bypass_start sys w site s)
unfolding site_bypass_start
site_bypass_start-Outcome sys w site s short ok consistent =
    let chosen = gather_pins w site (previous_pins site s.file) site.domains [] 0 in
    let h =
      gather_pins-IsPinned w site (previous_pins site s.file) short site.domains [] 0 tt
        (omega arith) in
    rw ok (
      pinned-Outcome sys w site chosen.0 chosen.1 _ h.0 (
        cleared-IsQuiet (if s.active || s.dns_runs then site_bypass_stop s else s)
          (relay_stopped (s.active || s.dns_runs) s consistent)))

examine-none :
    (w : World) (pins : List Pin) (tested quiet : ℕ)
    → ((ip : List ℕ) → w.tcp 1 ip ≡ false)
    → (examine w pins tested quiet).kept ≡ []
unfolding examine
examine-none w [] tested quiet h = refl
examine-none w (p ∷ pins) tested quiet h = rw (h p.ip) (examine-none w pins _ _ h)

-- What a start ends with.
pub record IsUnpinned (chosen : List Pin) (r : Bool × State) : Type 0 where
  pub succeeded : r.0 ≡ true
  pub no_pins : r.1.pins ≡ []
  pub still_served : r.1.served ≡ chosen

install-IsUnpinned :
    (sys : System) (use_relay : Bool) (chosen : List Pin) (s : State)
    → sys.relay_starts ≡ true
    → s.pins ≡ []
    → s.served ≡ chosen
    → IsUnpinned chosen (install sys use_relay s)
unfolding install
install-IsUnpinned sys false chosen s r e f = record {
  succeeded = refl;
  no_pins = e;
  still_served = f;
}
install-IsUnpinned sys true chosen s r e f =
    rw r (record { succeeded = refl; no_pins = e; still_served = f })

-- With acceptable settings, an answerer and a relay that start, and some pin chosen: if no address
-- answers the doctor, the start succeeds all the same, with no pins; and the answerer serves all
-- the pins that the doctor threw out.
pub site_bypass_start-IsUnpinned :
    (sys : System) (w : World) (site : Site) (s : State) (p : Pin) (pins : List Pin) (blocked : ℕ)
    → acceptable site ≡ true
    → sys.dns_starts ≡ true
    → sys.relay_starts ≡ true
    → gather_pins w site (previous_pins site s.file) site.domains [] 0 ≡ (p ∷ pins, blocked)
    → ((ip : List ℕ) → w.tcp 1 ip ≡ false)
    → IsUnpinned (p ∷ pins) (site_bypass_start sys w site s)
unfolding site_bypass_start pinned examined site_doctor
site_bypass_start-IsUnpinned sys w site s p pins blocked ok dns relay chosen h =
    rw (ok, chosen, dns)
      (install-IsUnpinned (record sys { dns_starts = true }) _ (p ∷ pins) _ relay
        (examine-none w (p ∷ pins) 0 0 h) refl)
