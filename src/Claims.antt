-- ===== src/Claims.antt =====
-- The claims on addresses, common/claims.c, over the files of its directory.
pub mod Taken
use raise_my_freedom.Common.{
  ℕ, zero, suc, Bool, true, false, not, ◌&&◌, ◌||◌, Option, none, some, List, [], ◌∷◌, ◌++◌, ltb,
  ◌==◌, if◌then◌else◌, length, get_or,
}
use raise_my_freedom.SiteConfig.Text.{c_string, str_eq, str_case_eq}
use raise_my_freedom.SiteConfig.Config.{next_line}

-- A file of the directory.
pub record Claim : Type 0 where
  pub name : List ℕ
  pub text : List ℕ

-- `unlink`
unfoldable pub without : List ℕ → List Claim → List Claim
unfolding str_eq
without name [] = []
without name (c ∷ dir) =
    let rest = without name dir in if str_eq c.name name then rest else c ∷ rest

-- `fopen` for writing and all that is written.
unfoldable pub put : List ℕ → List ℕ → List Claim → List Claim
unfolding without
put name text dir = without name dir ++ (record { name = name; text = text } ∷ [])

unfoldable pub text_of : List ℕ → List Claim → Option (List ℕ)
unfolding str_eq
text_of name [] = none
text_of name (c ∷ dir) =
    let rest = text_of name dir in if str_eq c.name name then some c.text else rest

-- `rename`
unfoldable pub rename : List ℕ → List ℕ → List Claim → List Claim
unfolding text_of put without
rename from to dir = elim (text_of from dir) [
  | none ↦ dir
  | some text ↦ put to text (without from dir)
]

unfoldable pub has_slash : List ℕ → Bool
has_slash [] = false
has_slash (c ∷ s) = c == b'/' || has_slash s

-- A line for each address.
unfoldable pub claim_text : List (List ℕ) → List ℕ
claim_text [] = []
claim_text (ip ∷ ips) = ip ++ (b'\n' ∷ claim_text ips)

abbrev pub tmp_name : List ℕ → List ℕ
tmp_name module_name = module_name ++ (b'.' ∷ b't' ∷ b'm' ∷ b'p' ∷ [])

-- `claims_store`: whether it succeeds, and the directory; `opens` and `renames` say which calls do.
unfoldable pub claims_store : Bool → Bool → List ℕ → List (List ℕ) → List Claim → Bool × List Claim
unfolding has_slash claim_text put rename without
claims_store opens renames module_name ips dir =
    let tmp = tmp_name module_name in
    let written = put tmp (claim_text ips) dir in
    if length module_name == 0 || has_slash module_name || not opens
    then (false, dir)
    else if renames
    then (true, rename tmp module_name written)
    else (false, without tmp written)

-- Without the line ends behind it.
unfoldable pub strip_ends : List ℕ → List ℕ
strip_ends [] = []
strip_ends (c ∷ s) =
    let rest = strip_ends s in
    elim rest [ [] ↦ (if c == b'\n' || c == b'\r' then [] else c ∷ []) | b ∷ t ↦ c ∷ (b ∷ t) ]

-- The loop over a file's lines: whether one is the address.
unfoldable pub claimed : ℕ → List ℕ → List ℕ → Bool
unfolding next_line c_string strip_ends str_case_eq
claimed zero ip text = false
claimed (suc fuel) ip [] = false
claimed (suc fuel) ip (c ∷ s) =
    let line = next_line 127 (c ∷ s) in
    let read = strip_ends (c_string line.0) in
    (ltb 0 (length read) && str_case_eq read ip) || claimed fuel ip line.1

-- What one entry says: hidden ones and the module's own say nothing.
unfoldable pub entry_claims : List ℕ → List ℕ → Claim → Bool
unfolding str_eq claimed
entry_claims module_name ip c =
    not (get_or c.name 0 0 == b'.')
    && not (str_eq c.name module_name)
    && claimed (length c.text) ip c.text

-- The loop over the directory.
unfoldable pub any_claims : List ℕ → List ℕ → List Claim → Bool
unfolding entry_claims
any_claims module_name ip [] = false
any_claims module_name ip (c ∷ dir) = entry_claims module_name ip c || any_claims module_name ip dir

-- `claims_taken_by_other`
unfoldable pub claims_taken_by_other : List ℕ → List ℕ → List Claim → Bool
unfolding any_claims
claims_taken_by_other module_name ip dir = ltb 0 (length ip) && any_claims module_name ip dir

-- `claims_release`
unfoldable pub claims_release : List ℕ → List Claim → List Claim
unfolding without
claims_release module_name dir = if length module_name == 0 then dir else without module_name dir
