-- ===== src/Bypass/Choose/Allowed.antt =====
-- What is true of every pin: its address is one that the module allows, and the doctor keeps only
-- pins whose address answers for the domain.
use raise_my_freedom.Common.{
  ℕ, zero, suc, ◌≤◌, ◌<◌, ◌≡◌, ◌≢◌, refl, ap, Bool, true, false, not, ◌&&◌, ◌||◌, Option, none,
  some, List, [], ◌∷◌, ◌++◌, arith, leb, ◌==◌, if◌then◌else◌, length, take, All, Bool-cases, inl,
  inr, length-append,
}
use raise_my_freedom.SiteConfig.Text.{copy}
use raise_my_freedom.Bypass.Pins.{Pin, normalize_domain, first_pin}
use raise_my_freedom.Bypass.Choose.{
  Cert, own, foreign, silent, World, Site, site_ip_allowed, preset_of, previous_of, candidates,
  select, choose, gather_pins, is_foreign,
}

-- `inet_pton` takes no text of 64 characters or more.
abbrev pub TakesShort : World → Type 0
TakesShort w = (t a : List ℕ) → w.pton t ≡ some a → length t < 64

take_short : (n : ℕ) (t : List ℕ) → length t ≤ n → take n t ≡ t
take_short zero [] h = refl
take_short zero (c ∷ t) h = absurd (omega arith)
take_short (suc n) [] h = refl
take_short (suc n) (c ∷ t) h = ap (◌∷◌ c) (take_short n t (omega arith))

-- An allowed address is stored whole.
copy-allowed : (w : World) (t : List ℕ) → TakesShort w → site_ip_allowed w t ≡ true → copy 64 t ≡ t
unfolding site_ip_allowed
copy-allowed w t short e = by_pton (w.pton t) refl e
  where
    by_pton :
        (r : Option (List ℕ))
        → w.pton t ≡ r
        → (elim r [ none ↦ false | some a ↦ w.validates t ]) ≡ true
        → copy 64 t ≡ t
    by_pton none p e = absurd (cc e)
    by_pton (some a) p e = take_short 63 t (omega (arith, short t a p))

-- What an allowed text is stored as is allowed.
stored :
    (w : World) (t ip : List ℕ)
    → TakesShort w
    → site_ip_allowed w t ≡ true
    → copy 64 t ≡ ip
    → site_ip_allowed w ip ≡ true
stored w t ip short e same = rw (← same, copy-allowed w t short e) e

preset_of-allowed :
    (w : World) (presets : List Pin) (domain ip : List ℕ)
    → TakesShort w
    → preset_of w presets domain ≡ some ip
    → site_ip_allowed w ip ≡ true
unfolding preset_of
preset_of-allowed w presets domain ip short e = by_pin (first_pin _ presets) e
  where
    by_pin :
        (r : Option (List ℕ))
        → (elim r [ none ↦ none | some t ↦ if site_ip_allowed w t then some (copy 64 t) else none ])
          ≡ some ip
        → site_ip_allowed w ip ≡ true
    by_pin none e = absurd (cc e)
    by_pin (some t) e = elim (Bool-cases (site_ip_allowed w t)) [
      | inl k ↦ let same : copy 64 t ≡ ip = cc (rw k at e) in stored w t ip short k same
      | inr k ↦ absurd (cc (rw k at e))
    ]

if-some :
    (b : Bool) (t ip : List ℕ) → (if b then some t else none) ≡ some ip → (b ≡ true) × (t ≡ ip)
if-some true t ip e = (refl, cc e)
if-some false t ip e = absurd (cc e)

and-left : (a b : Bool) → a && b ≡ true → a ≡ true
and-left true b h = refl
and-left false b h = absurd (cc h)

previous_of-allowed :
    (w : World) (prev : List Pin) (domain ip : List ℕ)
    → TakesShort w
    → previous_of w prev domain ≡ some ip
    → site_ip_allowed w ip ≡ true
unfolding previous_of
previous_of-allowed w prev domain ip short e = by_pin (first_pin _ prev) e
  where
    by_cert :
        (t : List ℕ) (c : Cert)
        → (elim c [
          | own ↦ if site_ip_allowed w t && w.tcp 0 t then some (copy 64 t) else none
          | foreign ↦ none
          | silent ↦ none
        ])
          ≡ some ip
        → site_ip_allowed w ip ≡ true
    by_cert t foreign e = absurd (cc e)
    by_cert t silent e = absurd (cc e)
    by_cert t own e =
        let (k, same) = if-some (site_ip_allowed w t && w.tcp 0 t) (copy 64 t) ip e in
        stored w t ip short (and-left (site_ip_allowed w t) (w.tcp 0 t) k) same

    by_pin :
        (r : Option (List ℕ))
        → (elim r [
          | none ↦ none
          | some t ↦ elim (w.cert 0 t domain) [
            | own ↦ if site_ip_allowed w t && w.tcp 0 t then some (copy 64 t) else none
            | foreign ↦ none
            | silent ↦ none
          ]
        ])
          ≡ some ip
        → site_ip_allowed w ip ≡ true
    by_pin none e = absurd (cc e)
    by_pin (some t) e = by_cert t (w.cert 0 t domain) e

choose-allowed :
    (w : World) (site : Site) (prev : List Pin) (domain ip : List ℕ)
    → TakesShort w
    → choose w site prev domain ≡ some ip
    → site_ip_allowed w ip ≡ true
unfolding choose
choose-allowed w site prev domain ip short e =
    by_way (preset_of w site.presets domain) (previous_of w prev domain)
      (select w domain (candidates w site domain) none)
      (λ t k. preset_of-allowed w site.presets domain t short k)
      (λ t k. previous_of-allowed w prev domain t short k) e
  where
    by_way :
        (a b c : Option (List ℕ))
        → ((t : List ℕ) → a ≡ some t → site_ip_allowed w t ≡ true)
        → ((t : List ℕ) → b ≡ some t → site_ip_allowed w t ≡ true)
        → (elim a [
          | some t ↦ some t
          | none ↦ elim b [
            | some t ↦ some t
            | none ↦ elim c [
              | none ↦ none
              | some t ↦ if site_ip_allowed w (copy 64 t) then some (copy 64 t) else none
            ]
          ]
        ])
          ≡ some ip
        → site_ip_allowed w ip ≡ true
    by_way (some t) b c f g e = f ip e
    by_way none (some t) c f g e = g ip e
    by_way none none none f g e = absurd (cc e)
    by_way none none (some t) f g e =
        let (k, same) = if-some (site_ip_allowed w (copy 64 t)) (copy 64 t) ip e in rw (← same) k

-- A pin that may be installed.
pub record IsPinned (w : World) (p : Pin) : Type 0 where
  pub allowed : site_ip_allowed w p.ip ≡ true
  pub named : 0 < length p.domain

All-append : (P : Pin → Type 0) (xs ys : List Pin) → All P xs → All P ys → All P (xs ++ ys)
All-append P [] ys h k = k
All-append P (x ∷ xs) ys (h, t) k = (h, All-append P xs ys t k)

module _ (w : World) (site : Site) (prev : List Pin) (short : TakesShort w) where
  add_pin :
      (domain : List ℕ) (pins : List Pin) (found : Option (List ℕ))
      → ((ip : List ℕ) → found ≡ some ip → site_ip_allowed w ip ≡ true)
      → All (IsPinned w) pins
      → length pins < 64
      → (let pins' : List Pin = elim found [
        | some ip ↦
            (if length domain == 0
              then pins
              else pins ++ (record { domain = domain; ip = ip } ∷ []))
        | none ↦ pins
      ] in
          All (IsPinned w) pins' × (length pins' ≤ 64))
  add_pin domain pins none f h l = (h, omega arith)
  add_pin domain pins (some ip) f h l = elim (Bool-cases (length domain == 0)) [
    | inl e ↦ rw e (h, omega arith)
    | inr e ↦
        let one : IsPinned w (record { domain = domain; ip = ip }) = record {
          allowed = f ip refl;
          named = ground arith;
        } in
        rw e (
          All-append (IsPinned w) pins (record { domain = domain; ip = ip } ∷ []) h (one, tt),
          omega (arith, length-append pins (record { domain = domain; ip = ip } ∷ [])),
        )
  ]

  pub gather_pins-IsPinned :
      (domains : List (List ℕ)) (pins : List Pin) (blocked : ℕ)
      → All (IsPinned w) pins
      → length pins ≤ 64
      → (let r = (gather_pins w site prev domains pins blocked).0 in
          All (IsPinned w) r × (length r ≤ 64))
  unfolding gather_pins
  gather_pins-IsPinned [] pins blocked h l = (h, l)
  gather_pins-IsPinned (d ∷ domains) pins blocked h l = elim (Bool-cases (leb 64 (length pins))) [
    | inl full ↦ rw full (h, l)
    | inr free ↦
        let domain : List ℕ = normalize_domain d in
        let (h', l') =
          add_pin domain pins (choose w site prev domain)
            (λ ip e. choose-allowed w site prev domain ip short e) h (ground arith) in
        rw free (gather_pins-IsPinned domains _ _ h' l')
  ]

-- What the doctor has found of a pin that stays: its address answers, and it does not show another
-- name's certificate.
pub record IsHealthy (w : World) (p : Pin) : Type 0 where
  pub answers : w.tcp 1 p.ip ≡ true
  pub not_foreign : w.cert 1 p.ip p.domain ≢ foreign

pub not_dropped :
    (w : World) (p : Pin) (f : Cert → Bool)
    → f foreign ≡ true
    → not (w.tcp 1 p.ip) || f (w.cert 1 p.ip p.domain) ≡ false
    → IsHealthy w p
not_dropped w p f e d = elim (Bool-cases (w.tcp 1 p.ip)) [
  | inl t ↦ record { answers = t; not_foreign = λ c. absurd (cc (rw (t, c, e) at d)) }
  | inr t ↦ absurd (cc (rw t at d))
]

pub dropped :
    (w : World) (p : Pin)
    → not (w.tcp 1 p.ip) || is_foreign (w.cert 1 p.ip p.domain) ≡ true
    → ¬ IsHealthy w p
dropped w p d h = by_cert (w.cert 1 p.ip p.domain) refl
  where
    by_cert : (c : Cert) → w.cert 1 p.ip p.domain ≡ c → ⊥
    by_cert foreign e = h.not_foreign e
    by_cert own e = absurd (cc (rw (h.answers, e) at d))
    by_cert silent e = absurd (cc (rw (h.answers, e) at d))
