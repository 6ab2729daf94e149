-- ===== src/Bypass/Pins/Match.antt =====
-- Which names a pin serves.
use raise_my_freedom.Common.{
  ℕ, zero, suc, ◌+◌, ◌-◌, ◌<◌, ◌≡◌, refl, ap, Bool, true, false, ◌&&◌, ◌||◌, Option, none, some,
  List, [], ◌∷◌, ◌++◌, arith, ltb, ◌==◌, length, take, drop, get_or, All, Bool-cases, inl, inr,
  length-append,
}
use raise_my_freedom.SiteConfig.Text.{str_case_eq}
use raise_my_freedom.Bypass.Pins.{Pin, domain_matches, first_pin, lookup_pin}

-- The query is the pinned name, or a name below it.
pub data Below (base : List ℕ) : List ℕ → Type 0 where
  same : {q : List ℕ} → str_case_eq q base ≡ true → Below base q
  under :
      {q : List ℕ} (front back : List ℕ)
      → q ≡ front ++ (b'.' ∷ back)
      → str_case_eq back base ≡ true
      → Below base q

str_case_eq-length : (a b : List ℕ) → str_case_eq a b ≡ true → length a ≡ length b
unfolding str_case_eq
str_case_eq-length [] [] e = refl
str_case_eq-length (x ∷ a) (y ∷ b) e = ap suc (str_case_eq-length a b (both _ (str_case_eq a b) e))
  where
    both : (p q : Bool) → p && q ≡ true → q ≡ true
    both true q h = h
    both false q h = absurd (ground arith)
str_case_eq-length [] (y ∷ b) e = absurd (ground arith)
str_case_eq-length (x ∷ a) [] e = absurd (ground arith)

-- A list cut before and behind one of its elements.
cut_at : (q : List ℕ) (i : ℕ) → i < length q → q ≡ take i q ++ (get_or q i 0 ∷ drop (suc i) q)
cut_at [] i h = absurd (omega arith)
cut_at (x ∷ q) zero h = refl
cut_at (x ∷ q) (suc i) h = ap (◌∷◌ x) (cut_at q i (omega arith))

domain_matches-Below : (q base : List ℕ) → domain_matches q base ≡ true → Below base q
unfolding domain_matches
domain_matches-Below q base e = elim (Bool-cases (str_case_eq q base)) [
  | inl s ↦ same s
  | inr s ↦
      let k : ℕ = length q - length base - 1 in
      let (long, dot, tail) =
        parts (length q) (length base) (get_or q k 0)
          (str_case_eq (drop (length q - length base) q) base) (rw s at e) in
      let again : length q - length base ≡ suc k = omega arith in
      under (take k q) (drop (suc k) q) (rw (← dot) (cut_at q k (omega arith))) (rw (← again) tail)
]
  where
    parts :
        (lq lb c : ℕ) (t : Bool)
        → ltb lb lq && c == b'.' && t ≡ true
        → (lb < lq) × (c ≡ b'.') × (t ≡ true)
    parts lq lb c true h = ground arith
    parts lq lb c false h = absurd (ground arith)

get_or-append : (front back : List ℕ) (c : ℕ) → get_or (front ++ (c ∷ back)) (length front) 0 ≡ c
get_or-append [] back c = refl
get_or-append (x ∷ front) back c = get_or-append front back c

drop-past : (front back : List ℕ) (c : ℕ) → drop (suc (length front)) (front ++ (c ∷ back)) ≡ back
drop-past [] back c = refl
drop-past (x ∷ front) back c = drop-past front back c

or-right : (a : Bool) → a || true ≡ true
or-right true = refl
or-right false = refl

Below-domain_matches : (q base : List ℕ) → Below base q → domain_matches q base ≡ true
unfolding domain_matches
Below-domain_matches q base (same s) = rw s refl
Below-domain_matches q base (under front back e s) =
    let l = str_case_eq-length back base s in
    let long : length (front ++ (b'.' ∷ back)) ≡ length front + suc (length base) =
      omega (arith, l, length-append front (b'.' ∷ back)) in
    let dot : length front + suc (length base) - length base - 1 ≡ length front = omega arith in
    let tail : length front + suc (length base) - length base ≡ suc (length front) = omega arith in
    let more : ltb (length base) (length front + suc (length base)) ≡ true = ground arith in
    rw (e, long, dot, tail, more, get_or-append front back b'.', drop-past front back b'.', s)
      (or-right (str_case_eq (front ++ (b'.' ∷ back)) base))

not-Below : (q base : List ℕ) → domain_matches q base ≡ false → ¬ Below base q
not-Below q base e b = absurd (cc (Below-domain_matches q base b, e))

-- Which pin a lookup comes to: the first one for the very name; without one, the first one for a
-- zone that the name is in; without one, none.
pub data Serves (pins : List Pin) (domain : List ℕ) : Option (List ℕ) → Type 0 where
  exact :
      (before : List Pin) (p : Pin) (after : List Pin)
      → pins ≡ before ++ (p ∷ after)
      → All (λ (r : Pin). str_case_eq domain r.domain ≡ false) before
      → str_case_eq domain p.domain ≡ true
      → Serves pins domain (some p.ip)
  zone :
      (before : List Pin) (p : Pin) (after : List Pin)
      → pins ≡ before ++ (p ∷ after)
      → All (λ (r : Pin). str_case_eq domain r.domain ≡ false) pins
      → All (λ (r : Pin). ¬ Below r.domain domain) before
      → Below p.domain domain
      → Serves pins domain (some p.ip)
  nobody : All (λ (r : Pin). ¬ Below r.domain domain) pins → Serves pins domain none

-- What the search for the first pin has found.
data First (accepts : List ℕ → Bool) (pins : List Pin) : Option (List ℕ) → Type 0 where
  found :
      (before : List Pin) (p : Pin) (after : List Pin)
      → pins ≡ before ++ (p ∷ after)
      → All (λ (r : Pin). accepts r.domain ≡ false) before
      → accepts p.domain ≡ true
      → First accepts pins (some p.ip)
  missing : All (λ (r : Pin). accepts r.domain ≡ false) pins → First accepts pins none

first_pin-First :
    (accepts : List ℕ → Bool) (pins : List Pin) → First accepts pins (first_pin accepts pins)
unfolding first_pin
first_pin-First accepts [] = missing tt
first_pin-First accepts (p ∷ pins) = elim (Bool-cases (accepts p.domain)) [
  | inl e ↦ rw e (found [] p pins refl tt e)
  | inr e ↦ rw e (later e (first_pin-First accepts pins))
]
  where
    later :
        {r : Option (List ℕ)}
        → accepts p.domain ≡ false
        → First accepts pins r
        → First accepts (p ∷ pins) r
    later e (found before q after w h t) = found (p ∷ before) q after (ap (◌∷◌ p) w) (e, h) t
    later e (missing h) = missing (e, h)

All-map :
    {P Q : Pin → Type 0} → ((p : Pin) → P p → Q p) → (pins : List Pin) → All P pins → All Q pins
All-map f [] h = tt
All-map f (p ∷ pins) (x, h) = (f p x, All-map f pins h)

-- A lookup comes to the first pin for the very name, whatever stands before it; without one, to the
-- first pin for a zone that the name is in; and to none only if the name is in no pinned zone.
pub lookup_pin-Serves :
    (pins : List Pin) (domain : List ℕ) → Serves pins domain (lookup_pin pins domain)
unfolding lookup_pin
lookup_pin-Serves pins domain =
    both (first_pin (str_case_eq domain) pins) (first_pin (domain_matches domain) pins)
      (first_pin-First (str_case_eq domain) pins) (first_pin-First (domain_matches domain) pins)
  where
    both :
        (a b : Option (List ℕ))
        → First (str_case_eq domain) pins a
        → First (domain_matches domain) pins b
        → Serves pins domain (elim a [ some ip ↦ some ip | none ↦ b ])
    both a b (found before p after w h t) g = exact before p after w h t
    both a b (missing h) (found before p after w k t) =
        zone before p after w h (All-map (λ r. not-Below domain r.domain) before k)
          (domain_matches-Below domain p.domain t)
    both a b (missing h) (missing k) = nobody (All-map (λ r. not-Below domain r.domain) pins k)
