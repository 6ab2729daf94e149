-- ===== src/Sni/Upstream/Allowed.antt =====
-- The relay connects to addresses only that the module allows.
use raise_my_freedom.Common.{
  ℕ, ◌≤◌, ◌≡◌, ◌⊎◌, refl, ◌∙◌, Bool, true, false, Option, none, some, List, [], ◌∷◌, ◌++◌, arith,
  ltb, leb, ◌==◌, if◌then◌else◌, length, drop, All, Bool-cases, inl, inr, length-append,
}
use raise_my_freedom.Sni.Upstream.{
  World, Relay, max_cands, relay_ip_allowed, is_candidate, add_unique, add_ip_candidate, add_answer,
  add_all, add_found, connect_first, Gathered, gather, gather_more, remembered, connect_upstream,
}

-- The address is written by a text that the module's test accepts.
pub record IsAllowed (w : World) (a : ℕ) : Type 0 where
  pub text : List ℕ
  pub writes : w.parse text ≡ some a
  pub accepted : w.validates text ≡ true

abbrev pub Distinct : List ℕ → Type 0
Distinct [] = Unit
Distinct (a ∷ l) = (is_candidate a l ≡ false) × Distinct l

-- What holds of the candidates at any time: eight at most, none twice, each allowed.
pub record AreCandidates (w : World) (cands : List ℕ) : Type 0 where
  pub short : length cands ≤ max_cands
  pub distinct : Distinct cands
  pub allowed : All (IsAllowed w) cands

append-is_candidate :
    (n : ℕ) (cands : List ℕ) (a : ℕ)
    → is_candidate n (cands ++ (a ∷ [])) ≡ (if is_candidate n cands then true else (a == n))
unfolding is_candidate
append-is_candidate n [] a = ground arith
append-is_candidate n (c ∷ cands) a = ground (arith, append-is_candidate n cands a)

append-Distinct :
    (cands : List ℕ) (a : ℕ)
    → Distinct cands
    → is_candidate a cands ≡ false
    → Distinct (cands ++ (a ∷ []))
unfolding is_candidate
append-Distinct [] a d h = (refl, tt)
append-Distinct (c ∷ cands) a (d, ds) h = (
  rw (append-is_candidate c cands a, d) (ground arith),
  append-Distinct cands a ds (ground arith),
)

append-All :
    (w : World) (cands : List ℕ) (a : ℕ)
    → All (IsAllowed w) cands
    → IsAllowed w a
    → All (IsAllowed w) (cands ++ (a ∷ []))
append-All w [] a h k = (k, tt)
append-All w (c ∷ cands) a (x, h) k = (x, append-All w cands a h k)

add_unique-AreCandidates :
    (w : World) (cands : List ℕ) (a : ℕ)
    → AreCandidates w cands
    → IsAllowed w a
    → AreCandidates w (add_unique cands a).0
unfolding add_unique
add_unique-AreCandidates w cands a h k = elim (Bool-cases (leb max_cands (length cands))) [
  | inl full ↦ rw full h
  | inr room ↦ elim (Bool-cases (is_candidate a cands)) [
    | inl old ↦ rw (room, old) h
    | inr new ↦
        rw (room, new)
          (record {
            short = ground (arith, length-append cands (a ∷ []));
            distinct = append-Distinct cands a h.distinct new;
            allowed = append-All w cands a h.allowed k;
          })
  ]
]

Option-cases {ℓ} : {A : Type ℓ} (o : Option A) → (o ≡ none) ⊎ ((a : A) × (o ≡ some a))
Option-cases none = inl refl
Option-cases (some a) = inr (a, refl)

add_ip_candidate-AreCandidates :
    (w : World) (cands ip : List ℕ)
    → AreCandidates w cands
    → AreCandidates w (add_ip_candidate w cands ip).0
unfolding add_ip_candidate relay_ip_allowed
add_ip_candidate-AreCandidates w cands ip h = elim (Option-cases (w.parse ip)) [
  | inl e ↦ rw (relay_ip_allowed, e) h
  | inr (a, e) ↦ elim (Bool-cases (w.validates ip)) [
    | inr f ↦ rw (relay_ip_allowed, e, f) h
    | inl f ↦
        rw (relay_ip_allowed, e, f)
          (add_unique-AreCandidates w cands a h (record { text = ip; writes = e; accepted = f }))
  ]
]

add_answer-AreCandidates :
    (w : World) (cands : List ℕ) (ip : Option (List ℕ))
    → AreCandidates w cands
    → AreCandidates w (add_answer w cands ip).0
unfolding add_answer
add_answer-AreCandidates w cands none h = h
add_answer-AreCandidates w cands (some ip) h = add_ip_candidate-AreCandidates w cands ip h

if-AreCandidates :
    (w : World) (b : Bool) (x y : List ℕ)
    → AreCandidates w x
    → AreCandidates w y
    → AreCandidates w (if b then x else y)
if-AreCandidates w true x y h k = h
if-AreCandidates w false x y h k = k

add_all-AreCandidates :
    (w : World) (cands : List ℕ) (ips : List (List ℕ))
    → AreCandidates w cands
    → AreCandidates w (add_all w cands ips)
unfolding add_all
add_all-AreCandidates w cands [] h = h
add_all-AreCandidates w cands (ip ∷ ips) h =
    if-AreCandidates w (ltb (length cands) max_cands) _ _
      (add_all-AreCandidates w (add_ip_candidate w cands ip).0 ips
        (add_ip_candidate-AreCandidates w cands ip h))
      h

add_found-AreCandidates :
    (w : World) (cands found : List ℕ)
    → AreCandidates w cands
    → AreCandidates w (add_found w cands found)
unfolding add_found
add_found-AreCandidates w cands [] h = h
add_found-AreCandidates w cands (a ∷ found) h =
    if-AreCandidates w (ltb (length cands) max_cands) _ _
      (add_found-AreCandidates w (add_ip_candidate w cands (w.print a)).0 found
        (add_ip_candidate-AreCandidates w cands (w.print a) h))
      h

drop_first : (w : World) (cands : List ℕ) → AreCandidates w cands → AreCandidates w (drop 1 cands)
drop_first w [] h = h
drop_first w (c ∷ cands) h = record {
  short = omega (arith, h.short);
  distinct = h.distinct.1;
  allowed = h.allowed.1;
}

-- The candidates of the first round of `connect_upstream`, whatever the resolvers answer, are
-- eight at most, none twice, and each is written by a text that the module's test accepts.
pub gather-AreCandidates :
    (w : World) (relay : Relay) (orig : Option ℕ) (sni : Option (List ℕ))
    → AreCandidates w (gather w relay orig sni).cands
unfolding gather
gather-AreCandidates w relay orig sni = add_all-AreCandidates w _ relay.fallbacks (
    add_answer-AreCandidates w _ _ (
      add_answer-AreCandidates w _ _ (
        add_answer-AreCandidates w [] (remembered relay)
          (record { short = omega arith; distinct = tt; allowed = tt }))))

gather_more-AreCandidates :
    (w : World) (relay : Relay) (g : Gathered) (name : List ℕ)
    → AreCandidates w g.cands
    → AreCandidates w (gather_more w relay g name)
unfolding gather_more
gather_more-AreCandidates w relay g name h =
    let second =
      if-AreCandidates w (ltb (length g.cands) max_cands) _ _
        (add_answer-AreCandidates w g.cands (w.udp relay.dns1 name) h) h in
    let third =
      if-AreCandidates w _ _ _ (add_answer-AreCandidates w _ (w.udp relay.dns2 name) second)
        second in
    if-AreCandidates w g.have_doh _ _
      (if-AreCandidates w g.have_orig _ _ (drop_first w _ third) third)
      (add_found-AreCandidates w _ (w.lookup name) third)

connect_first-IsAllowed :
    (w : World) (round : ℕ) (cands : List ℕ) (a : ℕ)
    → All (IsAllowed w) cands
    → connect_first w round cands ≡ some a
    → IsAllowed w a × (w.connects round a ≡ true)
unfolding connect_first
connect_first-IsAllowed w round [] a h e = absurd (cc e)
connect_first-IsAllowed w round (c ∷ cands) a (x, h) e = elim (Bool-cases (w.connects round c)) [
  | inl up ↦ let same : c ≡ a = cc (rw up at e) in rw (← same) (x, up)
  | inr down ↦ connect_first-IsAllowed w round cands a h (rw down at e)
]

-- The address that `connect_upstream` connects to is one that the module's test accepts and that
-- answered, wherever it came from: the shared page, the connection itself, a resolver or the
-- fallback list.
pub connect_upstream-IsAllowed :
    (w : World) (relay : Relay) (orig : Option ℕ) (sni : Option (List ℕ)) (a : ℕ)
    → (connect_upstream w relay orig sni).0 ≡ some a
    → IsAllowed w a × ((w.connects 0 a ≡ true) ⊎ (w.connects 1 a ≡ true))
unfolding connect_upstream
connect_upstream-IsAllowed w relay orig sni a e =
    let h = gather-AreCandidates w relay orig sni in
    elim (Option-cases (connect_first w 0 (gather w relay orig sni).cands)) [
      | inr (b, e1) ↦
          let same : some b ≡ some a = rw (connect_upstream, e1) at e in
          let (k, up) = connect_first-IsAllowed w 0 _ a h.allowed (e1 ∙ same) in (k, inl up)
      | inl e1 ↦ second_round sni e1 e
    ]
  where
    second_round :
        (name : Option (List ℕ))
        → connect_first w 0 (gather w relay orig name).cands ≡ none
        → (connect_upstream w relay orig name).0 ≡ some a
        → IsAllowed w a × ((w.connects 0 a ≡ true) ⊎ (w.connects 1 a ≡ true))
    second_round none e1 e2 = absurd (cc (rw (connect_upstream, e1) at e2))
    second_round (some name) e1 e2 =
        let g = gather w relay orig (some name) in
        let more =
          gather_more-AreCandidates w relay g name
            (gather-AreCandidates w relay orig (some name)) in
        elim (Option-cases (connect_first w 1 (gather_more w relay g name))) [
          | inl f ↦ absurd (cc (rw (connect_upstream, e1, f) at e2))
          | inr (b, f) ↦
              let same : some b ≡ some a = rw (connect_upstream, e1, f) at e2 in
              let (k, up) = connect_first-IsAllowed w 1 _ a more.allowed (f ∙ same) in (k, inr up)
        ]
