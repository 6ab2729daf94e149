-- ===== src/SiteConfig/Laws.antt =====
-- What holds of a configuration that was loaded.
use raise_my_freedom.Common.{
  ℕ, zero, suc, ◌+◌, ◌≤◌, ◌<◌, ◌≡◌, inl, inr, refl, Bool, true, false, Option, none, some, List, [],
  ◌∷◌, ◌++◌, arith, leb, if◌then◌else◌, length, take, All, Bool-cases, length-append,
}
use raise_my_freedom.SiteConfig.Text.{copy, str_eq, parse_int, parse_uint, trim, split_at}
use raise_my_freedom.SiteConfig.Config.{
  codes, find_method, Config, max_domains, max_cidr, max_fallback, max_host, defaults, LoadError,
  Loaded, ok, no_file, refused, add_to, set_key, load_value, load_entry, load_text, load_line,
  ◌>>=◌, load_lines, file_lines, load,
}

take_short : (n : ℕ) (s : List ℕ) → length (take n s) ≤ n
take_short zero s = omega arith
take_short (suc n) [] = omega arith
take_short (suc n) (c ∷ s) = omega (arith, take_short n s)

abbrev IsShort : List ℕ → Type 0
IsShort s = length s < max_host

-- What fits the arrays of `site_config_t`.
pub record Fits (c : Config) : Type 0 where
  pub label_fits : IsShort c.label
  pub chain_fits : IsShort c.chain
  pub primary_fits : IsShort c.primary_dns
  pub fallback_fits : IsShort c.fallback_dns
  pub domains_fit : (length c.domains ≤ max_domains) × All IsShort c.domains
  pub cidrs_fit : (length c.cidrs ≤ max_cidr) × All IsShort c.cidrs
  pub fallback_ips_fit : (length c.fallback_ips ≤ max_fallback) × All IsShort c.fallback_ips

copy_fits : (v : List ℕ) → length (copy max_host v) < max_host
copy_fits v = omega (arith, take_short 63 v)

append_fits :
    (limit : ℕ) (l : List (List ℕ)) (v : List ℕ)
    → (length l ≤ limit) × All IsShort l
    → leb limit (length l) ≡ false
    → (length (l ++ (copy max_host v ∷ [])) ≤ limit) × All IsShort (l ++ (copy max_host v ∷ []))
append_fits limit l v (h, a) room =
    (ground (arith, length-append l (copy max_host v ∷ [])), all_append l a)
  where
    all_append : (l : List (List ℕ)) → All IsShort l → All IsShort (l ++ (copy max_host v ∷ []))
    all_append [] a = (copy_fits v, tt)
    all_append (x ∷ l) (h, t) = (h, all_append l t)

add_to-fits :
    (limit : ℕ) (l : List (List ℕ)) (v : List ℕ) (l' : List (List ℕ))
    → (length l ≤ limit) × All IsShort l
    → add_to limit l v ≡ some l'
    → (length l' ≤ limit) × All IsShort l'
unfolding add_to
add_to-fits limit l v l' h e = elim (Bool-cases (leb limit (length l))) [
  | inl full ↦ cc (rw full at e)
  | inr room ↦
      let same : (l ++ (copy max_host v ∷ [])) ≡ l' = cc (rw room at e) in
      rw (← same) (append_fits limit l v h room)
]

-- What `set_key` may do to a configuration that fits.
abbrev LoadedFits : Loaded → Type 0
LoadedFits (ok c) = Fits c
LoadedFits _ = Unit

if-LoadedFits :
    (b : Bool) (x y : Loaded) → LoadedFits x → LoadedFits y → LoadedFits (if b then x else y)
if-LoadedFits true x y h k = h
if-LoadedFits false x y h k = k

option-LoadedFits :
    {A : Type 0} (o : Option A) (f : A → Config) (e : LoadError)
    → ((a : A) → o ≡ some a → Fits (f a))
    → LoadedFits (let r : Loaded = elim o [ some a ↦ ok (f a) | none ↦ refused e ] in r)
option-LoadedFits none f e h = tt
option-LoadedFits (some a) f e h = h a refl

set_key-Fits : (line : ℕ) (c : Config) (key v : List ℕ) → Fits c → LoadedFits (set_key line c key v)
unfolding set_key
set_key-Fits line c key v h =
    let short = copy_fits v in
    let d = λ (l : List (List ℕ)). add_to-fits max_domains c.domains v l h.domains_fit in
    let r = λ (l : List (List ℕ)). add_to-fits max_cidr c.cidrs v l h.cidrs_fit in
    let f = λ (l : List (List ℕ)). add_to-fits max_fallback c.fallback_ips v l h.fallback_ips_fit in
    if-LoadedFits (str_eq key (codes "label")) _ _ (assumption short) (
      if-LoadedFits (str_eq key (codes "chain")) _ _ (assumption short) (
        if-LoadedFits (str_eq key (codes "primary_dns")) _ _ (assumption short) (
          if-LoadedFits (str_eq key (codes "fallback_dns")) _ _ (assumption short) (
            if-LoadedFits (str_eq key (codes "method")) _ _
              (option-LoadedFits (find_method str_eq _) _ _ (λ m e. assumption))
              (if-LoadedFits (str_eq key (codes "dns_port")) _ _
                (option-LoadedFits (parse_int v) _ _ (λ m e. assumption))
                (if-LoadedFits (str_eq key (codes "relay_port")) _ _
                  (option-LoadedFits (parse_int v) _ _ (λ m e. assumption))
                  (if-LoadedFits (str_eq key (codes "mark")) _ _
                    (option-LoadedFits (parse_uint v) _ _ (λ m e. assumption))
                    (if-LoadedFits (str_eq key (codes "domain")) _ _
                      (option-LoadedFits (add_to max_domains c.domains v) _ _
                        (λ l e. assumption (d l e)))
                      (if-LoadedFits (str_eq key (codes "cidr")) _ _
                        (option-LoadedFits (add_to max_cidr c.cidrs v) _ _
                          (λ l e. assumption (r l e)))
                        (if-LoadedFits (str_eq key (codes "fallback_ip")) _ _
                          (option-LoadedFits (add_to max_fallback c.fallback_ips v) _ _
                            (λ l e. assumption (f l e)))
                          tt))))))))))

load_value-Fits :
    (line : ℕ) (c : Config) (key v : List ℕ) → Fits c → LoadedFits (load_value line c key v)
unfolding load_value
load_value-Fits line c key [] h = tt
load_value-Fits line c key (x ∷ v) h = set_key-Fits line c key (x ∷ v) h

load_text-Fits : (line : ℕ) (c : Config) (s : List ℕ) → Fits c → LoadedFits (load_text line c s)
unfolding load_text
load_text-Fits line c [] h = h
load_text-Fits line c (x ∷ s) h = at_equals (split_at b'=' (x ∷ s)).0 (split_at b'=' (x ∷ s)).1
  where
    at_equals : (front : List ℕ) (o : Option (List ℕ)) → LoadedFits (load_entry line c front o)
    at_equals front none = unfold load_entry in tt
    at_equals front (some after) =
        unfold load_entry in load_value-Fits line c (trim front) (trim after) h

>>=-LoadedFits :
    (l : Loaded) (f : Config → Loaded)
    → LoadedFits l
    → ((c : Config) → Fits c → LoadedFits (f c))
    → LoadedFits (l >>= f)
>>=-LoadedFits (ok c) f h k = k c h
>>=-LoadedFits no_file f h k = tt
>>=-LoadedFits (refused e) f h k = tt

load_lines-Fits :
    (line : ℕ) (c : Config) (texts : List (List ℕ)) → Fits c → LoadedFits (load_lines line c texts)
unfolding load_lines load_line
load_lines-Fits line c [] h = h
load_lines-Fits line c (t ∷ rest) h =
    >>=-LoadedFits (load_line (line + 1) c t) _ (load_text-Fits (line + 1) c _ h)
      (λ c' h'. load_lines-Fits (line + 1) c' rest h')

defaults-Fits : Fits defaults
unfolding defaults
defaults-Fits = omega arith

load-LoadedFits : (file : Option (List ℕ)) → LoadedFits (load file)
unfolding load
load-LoadedFits none = tt
load-LoadedFits (some file) =
    load_lines-Fits 0 defaults (file_lines (length file) file) defaults-Fits

-- Whatever the file holds, a configuration that `site_config_load` gives fits the arrays of
-- `site_config_t`: at most 64 domains, 32 ranges and 16 fallback addresses, each text below its
-- 64 bytes.
pub load-Fits : (file : Option (List ℕ)) (c : Config) → load file ≡ ok c → Fits c
load-Fits file c e = rw e at (load-LoadedFits file)
