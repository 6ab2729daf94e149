-- ===== src/Plain/Pump/Delivered.antt =====
-- The plain relay delivers each direction to its own end.
use raise_my_freedom.Common.{
  ℕ, zero, suc, ◌+◌, ◌≤◌, ◌<◌, ◌≡◌, refl, ◌∙◌, Bool, true, false, not, ◌&&◌, List, [], ◌∷◌, ◌++◌,
  arith, ltb, if◌then◌else◌, length, drop, min, ok, Bool-cases, inl, inr, append-nil,
  take-append-drop, length-drop, ==_self,
}
use raise_my_freedom.Sni.Splice.{joined, Write, label}
use raise_my_freedom.Sni.Splice.Relayed.{sent, transmit-all, sent-append, sent-label, sent-other}
use raise_my_freedom.Plain.Pump.{
  PumpSettings, Seen, quiet, got, ended, again, broken, Round, idle, poll_failed, interrupted,
  looked, chunks, parts, Turn, turn, pump,
}

-- What a socket that is not done yet brings, whether the loop goes on behind it, and whether the
-- side is done then.
abbrev brings : Bool → Seen → List ℕ
brings false (got bytes) = bytes
brings _ _ = []

abbrev stays : Bool → Seen → Bool
stays false broken = false
stays _ _ = true

abbrev is_done : Bool → Seen → Bool
is_done true _ = true
is_done false ended = true
is_done false _ = false

-- The bytes received from one side, to its end or to the end of the loop: for the server those of
-- the client, or the other way round.
unfoldable pub received : Bool → List Round → Bool → Bool → List ℕ
received up [] c u = []
received up (idle ∷ rounds) c u = []
received up (poll_failed ∷ rounds) c u = []
received up (interrupted ∷ rounds) c u = received up rounds c u
received up (looked x y ∷ rounds) c u =
    let rest = received up rounds (is_done c x) (is_done u y) in
    let now : List ℕ = if up then brings c x else (if stays c x then brings u y else []) in
    if c && u then [] else if stays c x && stays u y then now ++ rest else now

joined-chunks :
    (fuel size : ℕ) (bytes : List ℕ)
    → 0 < size
    → length bytes ≤ fuel
    → joined (chunks fuel size bytes) ≡ bytes
unfolding chunks joined
joined-chunks zero size [] pos h = refl
joined-chunks zero size (b ∷ s) pos h = absurd (omega arith)
joined-chunks (suc fuel) size [] pos h = refl
joined-chunks (suc fuel) size (b ∷ s) pos h =
    let k : ℕ = min (length (b ∷ s)) size in
    rw (joined-chunks fuel size (drop k (b ∷ s)) pos (omega (arith, length-drop k (b ∷ s))))
      (take-append-drop k (b ∷ s))

module _ (cfg : PumpSettings) (accepts : ℕ → Bool) (accepting : (i : ℕ) → accepts i ≡ true)
    (unsplit : cfg.split_data ≡ false) where
  -- Without cutting of records, the writes for the bytes of one `recv` are those bytes.
  whole_parts :
      (bytes : List ℕ) → (ws : List (List ℕ)) × (parts cfg bytes ≡ ok ws) × (joined ws ≡ bytes)
  unfolding parts joined
  whole_parts bytes = elim (Bool-cases (ltb 0 cfg.chunk && ltb cfg.chunk (length bytes))) [
    | inl e ↦ (
      chunks (length bytes) cfg.chunk bytes,
      rw (unsplit, e) refl,
      joined-chunks (length bytes) cfg.chunk bytes (first_of cfg.chunk (length bytes) e)
          (omega arith),
    )
    | inr e ↦ (bytes ∷ [], rw (unsplit, e) refl, append-nil bytes)
  ]
    where
      first_of : (k n : ℕ) → ltb 0 k && ltb k n ≡ true → 0 < k
      first_of k n e = ground arith

  record TurnOf (up done : Bool) (seen : Seen) (t : Turn) : Type 0 where
    same : sent up t.writes ≡ brings done seen
    other : sent (not up) t.writes ≡ []
    then_done : t.done ≡ is_done done seen
    then_on : t.goes_on ≡ stays done seen

  nothing_sent : (up : Bool) → sent up [] ≡ []
  unfolding sent
  nothing_sent true = refl
  nothing_sent false = refl

  other_label : (up : Bool) (ws : List (List ℕ)) → sent (not up) (label up ws) ≡ []
  other_label true ws = (sent-other ws).1
  other_label false ws = (sent-other ws).0

  turn-TurnOf :
      (k : ℕ) (up done : Bool) (seen : Seen) → TurnOf up done seen (turn cfg accepts k up done seen)
  unfolding turn
  turn-TurnOf k up true seen = record {
    same = nothing_sent up;
    other = nothing_sent (not up);
    then_done = refl;
    then_on = refl;
  }
  turn-TurnOf k up false quiet = record {
    same = nothing_sent up;
    other = nothing_sent (not up);
    then_done = refl;
    then_on = refl;
  }
  turn-TurnOf k up false again = record {
    same = nothing_sent up;
    other = nothing_sent (not up);
    then_done = refl;
    then_on = refl;
  }
  turn-TurnOf k up false broken = record {
    same = nothing_sent up;
    other = nothing_sent (not up);
    then_done = refl;
    then_on = refl;
  }
  turn-TurnOf k up false ended = record {
    same = nothing_sent up;
    other = nothing_sent (not up);
    then_done = refl;
    then_on = refl;
  }
  turn-TurnOf k up false (got bytes) =
      let (ws, e, j) = whole_parts bytes in
      let all = transmit-all accepts k ws accepting in
      record {
        same = rw (turn, e, all) (sent-label up ws ∙ j);
        other = rw (turn, e, all) (other_label up ws);
        then_done = rw (turn, e) refl;
        then_on = rw (turn, e, all) (==_self (length ws));
      }

-- A round's writes, by its tests.
up_round :
    (over b1 b2 : Bool) (i j : List ℕ) (w1 w2 w3 : List Write)
    → sent true w1 ≡ i
    → sent true w2 ≡ []
    → sent true w3 ≡ j
    → sent true
        (if over then [] else if b1 then (if b2 then w1 ++ (w2 ++ w3) else w1 ++ w2) else w1)
      ≡ (if over then [] else if b1 && b2 then i ++ j else i)
up_round true b1 b2 i j w1 w2 w3 h1 h2 h3 = unfold sent in refl
up_round false false b2 i j w1 w2 w3 h1 h2 h3 = h1
up_round false true true i j w1 w2 w3 h1 h2 h3 =
    rw (sent-append true w1 (w2 ++ w3), sent-append true w2 w3, h1, h2, h3) refl
up_round false true false i j w1 w2 w3 h1 h2 h3 = rw (sent-append true w1 w2, h1, h2) (append-nil i)

down_round :
    (over b1 b2 : Bool) (i j : List ℕ) (w1 w2 w3 : List Write)
    → sent false w1 ≡ []
    → sent false w2 ≡ i
    → sent false w3 ≡ j
    → sent false
        (if over then [] else if b1 then (if b2 then w1 ++ (w2 ++ w3) else w1 ++ w2) else w1)
      ≡ (if over
          then []
          else if b1 && b2
          then (if b1 then i else []) ++ j
          else (if b1 then i else []))
down_round true b1 b2 i j w1 w2 w3 h1 h2 h3 = unfold sent in refl
down_round false false b2 i j w1 w2 w3 h1 h2 h3 = h1
down_round false true true i j w1 w2 w3 h1 h2 h3 =
    rw (sent-append false w1 (w2 ++ w3), sent-append false w2 w3, h1, h2, h3) refl
down_round false true false i j w1 w2 w3 h1 h2 h3 = rw (sent-append false w1 w2, h1, h2) refl

module _ (cfg : PumpSettings) (accepts : ℕ → Bool) (accepting : (i : ℕ) → accepts i ≡ true)
    (unsplit : cfg.split_data ≡ false) where
  -- As long as no send fails and without cutting of records, each side gets exactly what the other
  -- side sent until its own end or the end of the loop: the end of one direction does not cut off
  -- the other.
  pub pump-received :
      (up : Bool) (k : ℕ) (rounds : List Round) (c u : Bool)
      → sent up (pump cfg accepts k rounds c u) ≡ received up rounds c u
  unfolding pump received
  pump-received up k [] c u = nothing_sent cfg accepts accepting unsplit up
  pump-received up k (idle ∷ rounds) c u = nothing_sent cfg accepts accepting unsplit up
  pump-received up k (poll_failed ∷ rounds) c u = nothing_sent cfg accepts accepting unsplit up
  pump-received up k (interrupted ∷ rounds) c u = pump-received up k rounds c u
  pump-received true k (looked x y ∷ rounds) c u =
      let first = turn cfg accepts k true c x in
      let second = turn cfg accepts (k + length first.writes) false u y in
      let t1 = turn-TurnOf cfg accepts accepting unsplit k true c x in
      let t2 = turn-TurnOf cfg accepts accepting unsplit (k + length first.writes) false u y in
      rw (t1.then_on, t2.then_on, t1.then_done, t2.then_done)
        (up_round (c && u) (stays c x) (stays u y) _ _ first.writes second.writes _ t1.same t2.other
          (pump-received true (k + length first.writes + length second.writes) rounds (is_done c x)
            (is_done u y)))
  pump-received false k (looked x y ∷ rounds) c u =
      let first = turn cfg accepts k true c x in
      let second = turn cfg accepts (k + length first.writes) false u y in
      let t1 = turn-TurnOf cfg accepts accepting unsplit k true c x in
      let t2 = turn-TurnOf cfg accepts accepting unsplit (k + length first.writes) false u y in
      rw (t1.then_on, t2.then_on, t1.then_done, t2.then_done)
        (down_round (c && u) (stays c x) (stays u y) _ _ first.writes second.writes _ t1.other
          t2.same
          (pump-received false (k + length first.writes + length second.writes) rounds (is_done c x)
            (is_done u y)))
