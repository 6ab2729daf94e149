-- ===== src/Bypass/Start.antt =====
-- `site_bypass_start` and `site_bypass_stop` of common/site_bypass.c, and what runs after them.
pub mod Outcome
use raise_my_freedom.Common.{
  ℕ, zero, suc, ◌+◌, Bool, true, false, not, ◌&&◌, ◌||◌, Option, none, some, List, [], ◌∷◌, ◌++◌,
  ltb, leb, ◌==◌, if◌then◌else◌, length,
}
use raise_my_freedom.SiteConfig.Text.{is_alnum}
use raise_my_freedom.Bypass.Pins.{Pin, max_site_domains}
use raise_my_freedom.Bypass.PinFile.{pins_load, pins_save}
use raise_my_freedom.Bypass.Choose.{World, Site, gather_pins, site_doctor}

-- Whether the file of pins can be written, whether `dns_start` and `plain_relay_start` succeed, and
-- whether the process is root.
pub record System : Type 0 where
  pub file_opens : Bool
  pub dns_starts : Bool
  pub relay_starts : Bool
  pub root : Bool

-- `site_bypass_state_t` with `site_pins`, whether the plain relay runs, the pins that the forked
-- answerer of DNS queries has, and the content of the file of pins, if it is there.
pub record State : Type 0 where
  pub active : Bool
  pub relay_on : Bool
  pub relay_runs : Bool
  pub dns_runs : Bool
  pub rules : Bool
  pub pins : List Pin
  pub served : List Pin
  pub file : Option (List ℕ)

unfoldable pub token_bytes : List ℕ → Bool
token_bytes [] = true
token_bytes (c ∷ s) = (is_alnum c || c == b'_' || c == b'-') && token_bytes s

unfoldable pub chain_token : List ℕ → Bool
unfolding token_bytes
chain_token value = ltb 0 (length value) && leb (length value) 63 && token_bytes value

-- The checks in front.
unfoldable pub acceptable : Site → Bool
unfolding chain_token
acceptable site =
    chain_token site.chain
    && ltb 0 (length site.domains)
    && leb (length site.domains) max_site_domains
    && ltb 1024 site.dns_port
    && leb site.dns_port 65535
    && ltb 1024 site.relay_port
    && leb site.relay_port 65535
    && not (site.dns_port == site.relay_port)

-- `site_bypass_stop`; the file stays.
unfoldable pub site_bypass_stop : State → State
site_bypass_stop s = record {
  active = false;
  relay_on = s.relay_on;
  relay_runs = false;
  dns_runs = false;
  rules = false;
  pins = [];
  served = [];
  file = s.file;
}

-- Behind the doctor: the rules, and the relay if it is needed.
unfoldable pub install : System → Bool → State → Bool × State
unfolding site_bypass_stop
install sys false s = (true, record s { rules = sys.root; relay_on = false; active = true })
install sys true s =
    if sys.relay_starts
    then (true, record s { rules = sys.root; relay_runs = true; relay_on = true; active = true })
    else (false, site_bypass_stop (record s { rules = sys.root }))

-- Behind `dns_start`.
unfoldable pub examined : System → Option Bool × List Pin → State → Bool × State
unfolding install
examined sys (none, pins) s = (false, site_bypass_stop (record s { pins = pins }))
examined sys (some use_relay, pins) s = install sys use_relay (record s { pins = pins })

-- What `pins_save` leaves in the file: a site without a name has none.
unfoldable pub saved_file : System → Site → List Pin → Option (List ℕ) → Option (List ℕ)
unfolding pins_save
saved_file sys site pins old =
    if ltb 0 (length site.name) && sys.file_opens then some (pins_save pins) else old

-- What `pins_load` reads of it.
unfoldable pub previous_pins : Site → Option (List ℕ) → List Pin
unfolding pins_load
previous_pins site file = if ltb 0 (length site.name) then pins_load file else []

-- Behind the choice of the pins, which are saved whatever they are.
unfoldable pub pinned : System → World → Site → List Pin × ℕ → State → Bool × State
unfolding examined site_doctor saved_file
pinned sys w site ([], blocked) s =
    (false, record s { pins = []; file = saved_file sys site [] s.file })
pinned sys w site (p ∷ pins, blocked) s =
    let with = record s { pins = p ∷ pins; file = saved_file sys site (p ∷ pins) s.file } in
    if sys.dns_starts
    then examined sys (site_doctor w site (p ∷ pins) blocked)
        (record with { dns_runs = true; served = p ∷ pins })
    else (false, with)

-- What `memset` leaves of a state.
abbrev pub cleared : State → State
cleared s = record {
  active = false;
  relay_on = false;
  relay_runs = s.relay_runs;
  dns_runs = false;
  rules = false;
  pins = [];
  served = [];
  file = s.file;
}

-- `site_bypass_start`: whether it succeeds, and the state; the pins of the last run come from the
-- file.
unfoldable pub site_bypass_start : System → World → Site → State → Bool × State
unfolding acceptable pinned gather_pins previous_pins
site_bypass_start sys w site s =
    let before = if s.active || s.dns_runs then site_bypass_stop s else s in
    if acceptable site
    then pinned sys w site (gather_pins w site (previous_pins site s.file) site.domains [] 0)
        (cleared before)
    else (false, s)

unfoldable pub site_bypass_active : State → Bool
site_bypass_active s = s.active && s.dns_runs && (if s.relay_on then s.relay_runs else true)
