-- ===== src/Claims/Taken.antt =====
-- What a store of common/claims.c makes of the answers to other modules.
use raise_my_freedom.Common.{
  ℕ, zero, suc, ◌≤◌, ◌<◌, ◌≡◌, ◌≢◌, refl, ap, ◌∙◌, Bool, true, false, ◌||◌, some, List, [], ◌∷◌,
  ◌++◌, arith, ◌==◌, length, get_or, All, Bool-cases, inl, inr, length-append, ne→==, lt→ltb,
  ==_self,
}
use raise_my_freedom.SiteConfig.Text.{c_string, str_eq, str_case_eq}
use raise_my_freedom.SiteConfig.Config.{next_line}
use raise_my_freedom.Claims.{
  Claim, without, put, text_of, rename, has_slash, claim_text, tmp_name, claims_store, strip_ends,
  claimed, entry_claims, any_claims, claims_taken_by_other,
}

-- A byte of an address as text.
abbrev pub IsTextByte : ℕ → Type 0
IsTextByte c = (c ≢ 0) × (c ≢ b'\n') × (c ≢ b'\r')

abbrev pub IsText : List ℕ → Type 0
IsText ip = (0 < length ip) × (length ip < 127) × All IsTextByte ip

-- Whether an address is in a list.
unfoldable pub listed : List ℕ → List (List ℕ) → Bool
unfolding str_case_eq
listed ip [] = false
listed ip (a ∷ l) = str_case_eq a ip || listed ip l

str_eq_self : (s : List ℕ) → str_eq s s ≡ true
unfolding str_eq
str_eq_self [] = refl
str_eq_self (c ∷ s) = rw (==_self c, str_eq_self s)

without_again :
    (name text : List ℕ) (dir : List Claim) → without name (put name text dir) ≡ without name dir
unfolding put without
without_again name text [] = rw (str_eq_self name)
without_again name text (c ∷ dir) = elim (Bool-cases (str_eq c.name name)) [
  | inl e ↦ rw e (without_again name text dir)
  | inr e ↦ rw (e, e) (ap (◌∷◌ c) (without_again name text dir))
]

text_of-put : (name text : List ℕ) (dir : List Claim) → text_of name (put name text dir) ≡ some text
unfolding put without text_of
text_of-put name text [] = rw (str_eq_self name)
text_of-put name text (c ∷ dir) = elim (Bool-cases (str_eq c.name name)) [
  | inl e ↦ rw e (text_of-put name text dir)
  | inr e ↦ rw (e, e) (text_of-put name text dir)
]

-- A store that succeeds leaves the other files and the module's own one.
store-put :
    (module_name : List ℕ) (ips : List (List ℕ)) (dir : List Claim)
    → 0 < length module_name
    → has_slash module_name ≡ false
    → (claims_store true true module_name ips dir).1
      ≡ put module_name (claim_text ips) (without (tmp_name module_name) dir)
unfolding claims_store rename
store-put module_name ips dir h e =
    let there : (length module_name == 0) ≡ false = ground arith in
    rw (
      there,
      e,
      rename,
      text_of-put (tmp_name module_name) (claim_text ips) dir,
      without_again (tmp_name module_name) (claim_text ips) dir,
    )

next_line_text :
    (room : ℕ) (c rest : List ℕ)
    → length c < room
    → All IsTextByte c
    → next_line room (c ++ (b'\n' ∷ rest)) ≡ (c ++ (b'\n' ∷ []), rest)
unfolding next_line
next_line_text zero c rest h p = absurd (omega arith)
next_line_text (suc room) [] rest h p = refl
next_line_text (suc room) (b ∷ c) rest h (q, p) =
    rw (next_line_text room c rest (omega arith) p, ne→== b b'\n' q.1)

c_string_text : (c : List ℕ) → All IsTextByte c → c_string (c ++ (b'\n' ∷ [])) ≡ c ++ (b'\n' ∷ [])
unfolding c_string
c_string_text [] p = refl
c_string_text (b ∷ c) (q, p) = rw (ne→== b 0 q.0, c_string_text c p)

strip_ends_text : (c : List ℕ) → All IsTextByte c → strip_ends (c ++ (b'\n' ∷ [])) ≡ c
unfolding strip_ends
strip_ends_text [] p = refl
strip_ends_text (b ∷ []) (q, p) = rw (ne→== b b'\n' q.1, ne→== b b'\r' q.2)
strip_ends_text (b ∷ c ∷ s) (q, p) = rw (strip_ends_text (c ∷ s) p)

-- What the reader finds in a written file is what was listed.
claimed-claim_text :
    (fuel : ℕ) (ip : List ℕ) (ips : List (List ℕ))
    → All IsText ips
    → length (claim_text ips) ≤ fuel
    → claimed fuel ip (claim_text ips) ≡ listed ip ips
unfolding claimed claim_text listed
claimed-claim_text zero ip [] h l = refl
claimed-claim_text (suc fuel) ip [] h l = refl
claimed-claim_text fuel ip ([] ∷ ips) ((t, n, p), h) l = absurd (omega arith)
claimed-claim_text zero ip ((b ∷ c) ∷ ips) h l = absurd (omega arith)
claimed-claim_text (suc fuel) ip ((b ∷ c) ∷ ips) ((t, n, p), h) l =
    let next =
      claimed-claim_text fuel ip ips h (omega (arith, length-append c (b'\n' ∷ claim_text ips))) in
    rw (
      next_line_text 127 (b ∷ c) (claim_text ips) n p,
      c_string_text (b ∷ c) p,
      strip_ends_text (b ∷ c) p,
      lt→ltb 0 (suc (length c)) (omega arith),
      next,
    )

any_claims-append :
    (module_name ip : List ℕ) (dir : List Claim) (c : Claim)
    → any_claims module_name ip (dir ++ (c ∷ []))
      ≡ any_claims module_name ip dir || entry_claims module_name ip c
unfolding any_claims
any_claims-append module_name ip [] c = or_false (entry_claims module_name ip c)
  where
    or_false : (b : Bool) → b || false ≡ b
    or_false true = refl
    or_false false = refl
any_claims-append module_name ip (d ∷ dir) c =
    ap (λ r. entry_claims module_name ip d || r) (any_claims-append module_name ip dir c)
    ∙ or_assoc (entry_claims module_name ip d) (any_claims module_name ip dir)
        (entry_claims module_name ip c)
  where
    or_assoc : (a b c : Bool) → a || (b || c) ≡ (a || b) || c
    or_assoc true b c = refl
    or_assoc false b c = refl

own_entry :
    (module_name other ip : List ℕ) (ips : List (List ℕ))
    → get_or module_name 0 0 ≢ b'.'
    → str_eq module_name other ≡ false
    → All IsText ips
    → entry_claims other ip (record { name = module_name; text = claim_text ips }) ≡ listed ip ips
unfolding entry_claims
own_entry module_name other ip ips d o t = rw (
  ne→== (get_or module_name 0 0) b'.' d,
  o,
  claimed-claim_text (length (claim_text ips)) ip ips t (omega arith),
)

-- A module with a name that is not empty, holds no `/` and does not begin with a dot stores
-- addresses of at most 126 bytes, none of them empty or with an end of line in it, and every call
-- succeeds. Then an address that is not empty is taken for another module exactly if it was stored
-- or an entry other than the module's two files claims it.
pub claims_store-taken :
    (module_name other ip : List ℕ) (ips : List (List ℕ)) (dir : List Claim)
    → 0 < length module_name
    → has_slash module_name ≡ false
    → get_or module_name 0 0 ≢ b'.'
    → str_eq module_name other ≡ false
    → All IsText ips
    → 0 < length ip
    → claims_taken_by_other other ip (claims_store true true module_name ips dir).1
      ≡ claims_taken_by_other other ip (without module_name (without (tmp_name module_name) dir))
        || listed ip ips
unfolding claims_taken_by_other put
claims_store-taken module_name other ip ips dir h e d o t there = rw (
  store-put module_name ips dir h e,
  lt→ltb 0 (length ip) there,
  any_claims-append other ip (without module_name (without (tmp_name module_name) dir))
      (record { name = module_name; text = claim_text ips }),
  own_entry module_name other ip ips d o t,
)
