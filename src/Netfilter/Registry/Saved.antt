-- ===== src/Netfilter/Registry/Saved.antt =====
-- The registry of chains survives its process.
use raise_my_freedom.Common.{
  ℕ, ◌+◌, ◌≤◌, ◌<◌, ◌==◌, ◌≡◌, ◌∙◌, ◌⊎◌, refl, sym, ap, Bool, true, false, not, ◌&&◌, ◌||◌, Option,
  none, some, List, [], ◌∷◌, ◌++◌, arith, leb, if◌then◌else◌, length, All, Bool-cases, inl, inr,
  length-append, append_assoc,
}
use mathlib.Core.Option
use raise_my_freedom.SiteConfig.Text.{str_eq}
use raise_my_freedom.Netfilter.Registry.{
  Registry, max_chains, has_chain, registry_add, registry_load, without, chain_lines,
  registry_remove, restart,
}
use raise_my_freedom.Netfilter.Registry.Lines.{IsName, copy_short, read_chains-chain_lines}

-- No name twice.
abbrev pub Distinct : List (List ℕ) → Type 0
Distinct [] = Unit
Distinct (c ∷ cs) = (has_chain c cs ≡ false) × Distinct cs

-- The table is good, and the file holds the very same chains.
pub record IsSaved (r : Registry) : Type 0 where
  pub names : All IsName r.chains
  pub distinct : Distinct r.chains
  pub short : length r.chains ≤ max_chains
  pub stored : ((r.chains ≡ []) × (r.file ≡ none)) ⊎ (r.file ≡ some (chain_lines r.chains))

pub restart-chains : (r : Registry) → IsSaved r → (restart r).chains ≡ r.chains
unfolding registry_load
restart-chains r h = by_file r.chains r.file h.stored h.names h.short
  where
    by_file :
        (cs : List (List ℕ)) (file : Option (List ℕ))
        → ((cs ≡ []) × (file ≡ none)) ⊎ (file ≡ some (chain_lines cs))
        → All IsName cs
        → length cs ≤ max_chains
        → (registry_load (record { chains = []; file = file })).chains ≡ cs
    by_file cs file (inl (e, f)) n l = rw (e, f)
    by_file cs file (inr f) n l =
        rw f (read_chains-chain_lines (length (chain_lines cs)) cs [] n (omega arith) (omega arith))

-- A live process keeps its table, so loading changes nothing where the file is true.
load-chains : (r : Registry) → IsSaved r → (registry_load r).chains ≡ r.chains
unfolding registry_load chain_lines
load-chains r h = by_table r.chains r.file h.stored
  where
    by_table :
        (cs : List (List ℕ)) (file : Option (List ℕ))
        → ((cs ≡ []) × (file ≡ none)) ⊎ (file ≡ some (chain_lines cs))
        → (registry_load (record { chains = cs; file = file })).chains ≡ cs
    by_table (c ∷ cs) file e = refl
    by_table [] file (inl (e, f)) = rw f
    by_table [] file (inr f) = rw f

chain_lines-append :
    (cs : List (List ℕ)) (c : List ℕ)
    → chain_lines (cs ++ (c ∷ [])) ≡ chain_lines cs ++ (c ++ (b'\n' ∷ []))
unfolding chain_lines
chain_lines-append [] c = refl
chain_lines-append (d ∷ cs) c =
    rw (chain_lines-append cs c, append_assoc d (b'\n' ∷ chain_lines cs) (c ++ (b'\n' ∷ [])))

names-append :
    (cs : List (List ℕ)) (c : List ℕ) → All IsName cs → IsName c → All IsName (cs ++ (c ∷ []))
names-append [] c h k = (k, tt)
names-append (d ∷ cs) c (x, h) k = (x, names-append cs c h k)

str_eq_comm : (a b : List ℕ) → str_eq a b ≡ str_eq b a
unfolding str_eq
str_eq_comm [] [] = refl
str_eq_comm [] (y ∷ b) = refl
str_eq_comm (x ∷ a) [] = refl
str_eq_comm (x ∷ a) (y ∷ b) = ground (arith, str_eq_comm a b)

has_chain-append :
    (n : List ℕ) (cs : List (List ℕ)) (c : List ℕ)
    → has_chain n (cs ++ (c ∷ [])) ≡ (if has_chain n cs then true else str_eq c n)
unfolding has_chain
has_chain-append n [] c = ground arith
has_chain-append n (d ∷ cs) c = ground (arith, has_chain-append n cs c)

Distinct-append :
    (cs : List (List ℕ)) (c : List ℕ)
    → Distinct cs
    → has_chain c cs ≡ false
    → Distinct (cs ++ (c ∷ []))
unfolding has_chain
Distinct-append [] c d h = (refl, tt)
Distinct-append (x ∷ cs) c (d, ds) h = (
  rw (has_chain-append x cs c, d, str_eq_comm c x) (ground arith),
  Distinct-append cs c ds (ground arith),
)

pub registry_add-IsSaved :
    (chain : List ℕ) (r : Registry) → IsName chain → IsSaved r → IsSaved (registry_add true chain r)
unfolding registry_add chain_lines
registry_add-IsSaved [] r k h = h
registry_add-IsSaved (b ∷ s) r k h = elim (Bool-cases (has_chain (b ∷ s) r.chains)) [
  | inl old ↦ rw old h
  | inr new ↦ elim (Bool-cases (leb max_chains (length r.chains))) [
    | inl full ↦ rw (new, full) h
    | inr room ↦
        rw (new, room, copy_short 63 (b ∷ s) (omega (arith, k.fits)))
          (record {
            names = names-append r.chains (b ∷ s) h.names k;
            distinct = Distinct-append r.chains (b ∷ s) h.distinct new;
            short = ground (arith, length-append r.chains ((b ∷ s) ∷ []));
            stored = inr (ap some (appended r.chains r.file h.stored));
          })
  ]
]
  where
    appended :
        (cs : List (List ℕ)) (file : Option (List ℕ))
        → ((cs ≡ []) × (file ≡ none)) ⊎ (file ≡ some (chain_lines cs))
        → Option.get_or file [] ++ ((b ∷ s) ++ (b'\n' ∷ [])) ≡ chain_lines (cs ++ ((b ∷ s) ∷ []))
    appended cs file (inl (e, f)) = rw (e, f, chain_lines)
    appended cs file (inr f) = rw f (sym (chain_lines-append cs (b ∷ s)))

-- Taking names out keeps what holds of all, adds none, and leaves none of that name.
without-names : (c : List ℕ) (cs : List (List ℕ)) → All IsName cs → All IsName (without c cs)
unfolding without
without-names c [] h = tt
without-names c (d ∷ cs) (x, h) = elim (Bool-cases (str_eq d c)) [
  | inl e ↦ rw e (without-names c cs h)
  | inr e ↦ rw e (x, without-names c cs h)
]

length-without : (c : List ℕ) (cs : List (List ℕ)) → length (without c cs) ≤ length cs
unfolding without
length-without c [] = omega arith
length-without c (d ∷ cs) = ground (arith, length-without c cs)

without-has_chain :
    (n c : List ℕ) (cs : List (List ℕ))
    → has_chain n cs ≡ false
    → has_chain n (without c cs) ≡ false
unfolding without has_chain
without-has_chain n c [] h = refl
without-has_chain n c (d ∷ cs) h = ground (arith, without-has_chain n c cs)

without-Distinct : (c : List ℕ) (cs : List (List ℕ)) → Distinct cs → Distinct (without c cs)
unfolding without
without-Distinct c [] d = tt
without-Distinct c (x ∷ cs) (d, ds) = elim (Bool-cases (str_eq x c)) [
  | inl e ↦ rw e (without-Distinct c cs ds)
  | inr e ↦ rw e (without-has_chain x c cs d, without-Distinct c cs ds)
]

without-gone : (c : List ℕ) (cs : List (List ℕ)) → has_chain c (without c cs) ≡ false
unfolding without has_chain
without-gone c [] = refl
without-gone c (d ∷ cs) = ground (arith, without-gone c cs)

pub registry_remove-IsSaved :
    (chain : List ℕ) (r : Registry)
    → IsSaved r
    → IsSaved (registry_remove true chain r)
      × (has_chain chain (registry_remove true chain r).chains ≡ false)
unfolding registry_remove
registry_remove-IsSaved chain r h = rw (load-chains r h) (
  record {
    names = without-names chain r.chains h.names;
    distinct = without-Distinct chain r.chains h.distinct;
    short = omega (arith, length-without chain r.chains, h.short);
    stored = inr refl;
  },
  without-gone chain r.chains,
)

str_eq-eq : (a b : List ℕ) → str_eq a b ≡ true → a ≡ b
unfolding str_eq
str_eq-eq [] [] e = refl
str_eq-eq [] (y ∷ b) e = absurd (cc e)
str_eq-eq (x ∷ a) [] e = absurd (cc e)
str_eq-eq (x ∷ a) (y ∷ b) e = let (h, t) = both x y (str_eq a b) e in rw (h, str_eq-eq a b t) refl
  where
    both : (x y : ℕ) (r : Bool) → (x == y) && r ≡ true → (x ≡ y) × (r ≡ true)
    both x y true e = (ground arith, refl)
    both x y false e = absurd (ground arith)

-- A chain that is added is there, and the others are as they were.
pub registry_add-has_chain :
    (n chain : List ℕ) (r : Registry)
    → IsName chain
    → length r.chains < max_chains
    → (has_chain n (registry_add true chain r).chains ≡ str_eq chain n || has_chain n r.chains)
      × (length (registry_add true chain r).chains ≤ length r.chains + 1)
unfolding registry_add
registry_add-has_chain n [] r k room = absurd (omega (arith, k.not_empty))
registry_add-has_chain n (b ∷ s) r k room = elim (Bool-cases (has_chain (b ∷ s) r.chains)) [
  | inl old ↦ rw old (there (b ∷ s) old, omega arith)
  | inr new ↦
      let free : leb max_chains (length r.chains) ≡ false = ground arith in
      let same = copy_short 63 (b ∷ s) (omega (arith, k.fits)) in
      rw (new, free, same)
        (
          has_chain-append n r.chains (b ∷ s) ∙ swap (has_chain n r.chains) (str_eq (b ∷ s) n),
          omega (arith, length-append r.chains ((b ∷ s) ∷ [])),
        )
]
  where
    there :
        (c : List ℕ)
        → has_chain c r.chains ≡ true
        → has_chain n r.chains ≡ str_eq c n || has_chain n r.chains
    there c old = elim (Bool-cases (str_eq c n)) [
      | inl e ↦ let same = str_eq-eq c n e in rw (e, ← same) old
      | inr e ↦ rw e refl
    ]

    swap : (x y : Bool) → (if x then true else y) ≡ y || x
    swap true true = refl
    swap true false = refl
    swap false true = refl
    swap false false = refl

has_chain-without :
    (n c : List ℕ) (cs : List (List ℕ))
    → has_chain n (without c cs) ≡ not (str_eq c n) && has_chain n cs
unfolding has_chain without
has_chain-without n c [] = none_of (not (str_eq c n))
  where
    none_of : (b : Bool) → false ≡ b && false
    none_of true = refl
    none_of false = refl
has_chain-without n c (d ∷ cs) = elim (Bool-cases (str_eq d c)) [
  | inl e ↦
      let same = str_eq-eq d c e in
      rw (e, has_chain-without n c cs, same) (taken (str_eq c n) (has_chain n cs))
  | inr e ↦ elim (Bool-cases (str_eq d n)) [
    | inr f ↦ rw (e, f, has_chain-without n c cs) refl
    | inl f ↦
        let same = str_eq-eq d n f in
        let other : str_eq c n ≡ false = str_eq_comm c n ∙ ap (λ x. str_eq x c) (sym same) ∙ e in
        rw (e, f, other) refl
  ]
]
  where
    taken : (b x : Bool) → not b && x ≡ not b && (if b then true else x)
    taken true x = refl
    taken false x = refl

-- A chain that is taken out is gone, and the others are as they were.
pub registry_remove-has_chain :
    (n chain : List ℕ) (r : Registry)
    → IsSaved r
    → (has_chain n (registry_remove true chain r).chains
        ≡ not (str_eq chain n) && has_chain n r.chains)
      × (length (registry_remove true chain r).chains ≤ length r.chains)
unfolding registry_remove
registry_remove-has_chain n chain r h =
    rw (load-chains r h) (has_chain-without n chain r.chains, length-without chain r.chains)
