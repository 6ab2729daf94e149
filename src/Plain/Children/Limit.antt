-- ===== src/Plain/Children/Limit.antt =====
-- What the count of connections is worth.
use raise_my_freedom.Common.{
  ℕ, zero, suc, ◌+◌, ◌-◌, ◌≤◌, ◌<◌, ◌≡◌, refl, Bool, true, false, arith, ltb, leb, if◌then◌else◌,
  Bool-cases, inl, inr, lt→leb, lt→ltb,
}
use raise_my_freedom.Plain.Children.{
  child_max, Count, accept_one, on_child_exit, Step, comes, ends, signals, Steps, here, then_step,
  start_count,
}

-- Every process is counted, and the count is within the limit.
pub record IsCounted (s : Count) : Type 0 where
  pub enough : s.live + s.pending ≤ s.children
  pub at_most : s.children ≤ child_max

accept_one-IsCounted : (forks : Bool) (s : Count) → IsCounted s → IsCounted (accept_one forks s).1
unfolding accept_one
accept_one-IsCounted forks s h = elim (Bool-cases (leb 512 s.children)) [
  | inl full ↦ rw full h
  | inr free ↦ rw free (by_fork forks (below s.children free))
]
  where
    below : (c : ℕ) → leb 512 c ≡ false → c < 512
    below c e = ground arith

    by_fork :
        (forks : Bool)
        → s.children < 512
        → (let r : Bool × Count =
              if forks
              then (true, record s { children = s.children + 1; live = s.live + 1 })
              else (false, s) in
            IsCounted r.1)
    by_fork true l = record { enough = omega (arith, h.enough); at_most = omega arith }
    by_fork false l = h

Step-IsCounted : {s t : Count} → Step s t → IsCounted s → IsCounted t
Step-IsCounted {s = s} (comes forks) h = accept_one-IsCounted forks s h
Step-IsCounted {s = s} (ends l) h = record { enough = omega (arith, h.enough); at_most = h.at_most }
Step-IsCounted {s = s} (signals p) h =
    let some : ltb 0 s.children ≡ true = lt→ltb 0 s.children (omega (arith, h.enough)) in
    unfold on_child_exit in
    rw some (record { enough = omega (arith, h.enough); at_most = omega (arith, h.at_most) })

-- However connections come, end and are signalled: there are never more processes than are counted,
-- and never more than 512.
pub Steps-IsCounted : {s : Count} → Steps start_count s → IsCounted s
Steps-IsCounted here = record { enough = omega arith; at_most = omega arith }
Steps-IsCounted (then_step steps step) = Step-IsCounted step (Steps-IsCounted steps)

comes_again :
    {s t : Count}
    → s.children < child_max
    → record { children = s.children + 1; live = s.live + 1; pending = s.pending } ≡ t
    → Step s t
comes_again {s = s} l e =
    let free : leb 512 s.children ≡ false = lt→leb 512 s.children l in
    let same : (accept_one true s).1
        ≡ record { children = s.children + 1; live = s.live + 1; pending = s.pending } =
      unfold accept_one in rw free refl in
    rw (← e, ← same) (comes true)

signals_again :
    {s t : Count}
    → 0 < s.pending
    → record { children = s.children - 1; live = s.live; pending = 0 } ≡ t
    → 0 < s.children
    → Step s t
signals_again {s = s} p e l =
    let some : ltb 0 s.children ≡ true = lt→ltb 0 s.children l in
    let same : on_child_exit s ≡ record { children = s.children - 1; live = s.live; pending = 0 } =
      unfold on_child_exit in rw some refl in
    rw (← e, ← same) (signals p)

-- Two children that end before the signal is delivered are counted down once.
drift :
    (n : ℕ)
    → n + 2 ≤ child_max
    → Steps start_count (record { children = n; live = 0; pending = 0 })
    → Steps start_count (record { children = n + 1; live = 0; pending = 0 })
drift n h steps =
    let two : n + 1 + 1 - 1 ≡ n + 1 = omega arith in
    let last : Step (record { children = n + 1 + 1; live = 0; pending = 2 })
        (record { children = n + 1; live = 0; pending = 0 }) =
      signals_again (omega arith) (rw two refl) (omega arith) in
    let first : Step (record { children = n; live = 0; pending = 0 })
        (record { children = n + 1; live = 1; pending = 0 }) =
      comes_again (omega arith) refl in
    let second : Step (record { children = n + 1; live = 1; pending = 0 })
        (record { children = n + 1 + 1; live = 2; pending = 0 }) =
      comes_again (omega arith) refl in
    then_step
      (then_step (then_step (then_step (then_step steps first) second) (ends (omega arith)))
        (ends (omega arith)))
      last

-- For every number below 512, the steps of the relay can lead to a count of children that is that
-- number while no child is alive and no signal is pending.
pub Steps-drift :
    (n : ℕ) → n < child_max → Steps start_count (record { children = n; live = 0; pending = 0 })
Steps-drift zero h = here
Steps-drift (suc n) h =
    let same : n + 1 ≡ suc n = omega arith in
    rw (← same) (drift n (omega arith) (Steps-drift n (omega arith)))
