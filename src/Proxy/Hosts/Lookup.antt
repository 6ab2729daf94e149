-- ===== src/Proxy/Hosts/Lookup.antt =====
-- Which names the file of hosts serves.
use raise_my_freedom.Common.{
  ℕ, zero, suc, ◌-◌, ◌≡◌, ◌≢◌, refl, ◌∙◌, Bool, true, false, ◌&&◌, Option, none, some, List, [],
  ◌∷◌, arith, ltb, ◌==◌, length, drop, get_or, All, Bool-cases, inl, inr,
}
use raise_my_freedom.SiteConfig.Text.{lower, str_case_eq}
use raise_my_freedom.Proxy.Hosts.{Host, searched, ends_in, first_host, find_host}

get_or-drop : (k : ℕ) (s : List ℕ) → get_or (drop k s) 0 0 ≡ get_or s k 0
get_or-drop zero [] = refl
get_or-drop zero (c ∷ s) = refl
get_or-drop (suc k) [] = refl
get_or-drop (suc k) (c ∷ s) = get_or-drop k s

-- Texts that are the same but for case, one of which begins with a dot.
str_case_eq-dot :
    (s t : List ℕ) → get_or s 0 0 ≡ b'.' → str_case_eq s t ≡ true → get_or t 0 0 ≡ b'.'
unfolding str_case_eq
str_case_eq-dot [] t d e = absurd (omega arith)
str_case_eq-dot (a ∷ s) [] d e = absurd (ground arith)
str_case_eq-dot (a ∷ s) (b ∷ t) d e = first a b (str_case_eq s t) d e
  where
    first : (a b : ℕ) (r : Bool) → a ≡ b'.' → lower a == lower b && r ≡ true → b ≡ b'.'
    first a b r d e = ground arith

ends_in-undotted : (name domain : List ℕ) → get_or domain 0 0 ≢ b'.' → ends_in name domain ≡ false
unfolding ends_in
ends_in-undotted name domain n =
    let k : ℕ = length name - length domain in
    elim (Bool-cases (str_case_eq (drop k name) domain)) [
      | inr e ↦ rw e (none_of (ltb (length domain) (length name)) (get_or name k 0 == b'.'))
      | inl e ↦ elim (Bool-cases (get_or name k 0 == b'.')) [
        | inr d ↦ rw d (none_after (ltb (length domain) (length name)) _)
        | inl d ↦
            absurd
              (n (str_case_eq-dot (drop k name) domain (get_or-drop k name ∙ (ground arith)) e))
      ]
    ]
  where
    none_of : (a b : Bool) → a && b && false ≡ false
    none_of a b = ground arith

    none_after : (a b : Bool) → a && false && b ≡ false
    none_after a b = ground arith

first_host-none :
    (accepts : List ℕ → Bool) (hosts : List Host)
    → All (λ (h : Host). accepts h.domain ≡ false) hosts
    → first_host accepts hosts ≡ none
unfolding first_host
first_host-none accepts [] a = refl
first_host-none accepts (h ∷ hosts) (n, a) = rw n (first_host-none accepts hosts a)

nowhere :
    (name : List ℕ) (hosts : List Host)
    → All (λ (h : Host). get_or h.domain 0 0 ≢ b'.') hosts
    → All (λ (h : Host). ends_in name h.domain ≡ false) hosts
nowhere name [] a = tt
nowhere name (h ∷ hosts) (n, a) = (ends_in-undotted name h.domain n, nowhere name hosts a)

-- With no listed name that begins with a dot, a search finds exactly the first host with the very
-- name searched for, up to case and one dot at its end; a name below a listed one is not found.
pub find_host-exact :
    (hosts : List Host) (dom : List ℕ)
    → All (λ (h : Host). get_or h.domain 0 0 ≢ b'.') hosts
    → find_host hosts dom ≡ first_host (str_case_eq (searched dom)) hosts
unfolding find_host
find_host-exact hosts dom a =
    chosen (first_host (str_case_eq (searched dom)) hosts)
      (first_host (ends_in (searched dom)) hosts)
      (first_host-none (ends_in (searched dom)) hosts (nowhere (searched dom) hosts a))
  where
    chosen : (r t : Option (List ℕ)) → t ≡ none → elim r [ some ip ↦ some ip | none ↦ t ] ≡ r
    chosen none t e = e
    chosen (some ip) t e = refl
