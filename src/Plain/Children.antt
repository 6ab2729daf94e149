-- ===== src/Plain/Children.antt =====
-- How `relay_loop` of common/plain_relay.c counts its connections: `g_children` goes up before a
-- fork and down in the handler of SIGCHLD, which is one call for all children that have ended since
-- the signal was last delivered.
pub mod Limit
use raise_my_freedom.Common.{
  ℕ, zero, suc, ◌+◌, ◌-◌, ◌≤◌, ◌<◌, ◌≡◌, Bool, true, false, ltb, leb, ◌==◌, if◌then◌else◌,
}

-- `CHILD_MAX`
abbrev pub child_max : ℕ
child_max = 512

-- `g_children`, the processes that serve a connection, and those that have ended without a call of
-- the handler since.
pub record Count : Type 0 where
  pub children : ℕ
  pub live : ℕ
  pub pending : ℕ

-- What `accept` and `fork` do for a connection: whether it is served, and the count.
unfoldable pub accept_one : Bool → Count → Bool × Count
accept_one forks s =
    if leb child_max s.children
    then (false, s)
    else if forks
    then (true, record s { children = s.children + 1; live = s.live + 1 })
    else (false, s)

-- A child ends.
abbrev pub child_ends : Count → Count
child_ends s = record s { live = s.live - 1; pending = s.pending + 1 }

-- `on_child_exit`
unfoldable pub on_child_exit : Count → Count
on_child_exit s = record s {
  children = (if ltb 0 s.children then s.children - 1 else s.children);
  pending = 0;
}

-- The events of the loop: a connection comes, a child ends while one lives, and the signal is
-- delivered while it is pending.
pub data Step (s : Count) : Count → Type 0 where
  comes : (forks : Bool) → Step s (accept_one forks s).1
  ends : 0 < s.live → Step s (child_ends s)
  signals : 0 < s.pending → Step s (on_child_exit s)

pub data Steps : Count → Count → Type 0 where
  here : {s : Count} → Steps s s
  then_step : {s t r : Count} → Steps s t → Step t r → Steps s r

abbrev pub start_count : Count
start_count = record { children = 0; live = 0; pending = 0 }
