-- ===== src/Netfilter/Registry.antt =====
-- The registry of chains in netfilter/netfilter_linux.c: the table `g_chains` and the file that
-- outlives the process.
pub mod Lines
pub mod Saved
use raise_my_freedom.Common.{
  ℕ, zero, suc, ◌+◌, Bool, true, false, ◌||◌, Option, none, some, List, [], ◌∷◌, ◌++◌, ltb, leb,
  ◌==◌, if◌then◌else◌, length,
}
use mathlib.Core.Option
use raise_my_freedom.SiteConfig.Text.{c_string, str_eq, copy}
use raise_my_freedom.SiteConfig.Config.{next_line}

-- `g_chains` with `g_chain_count`, and the content of `NF_REGISTRY`.
pub record Registry : Type 0 where
  pub chains : List (List ℕ)
  pub file : Option (List ℕ)

-- `NF_MAX_CHAINS`
abbrev pub max_chains : ℕ
max_chains = 64

unfoldable pub has_chain : List ℕ → List (List ℕ) → Bool
has_chain c [] = false
has_chain c (d ∷ ds) = if str_eq d c then true else has_chain c ds

-- `registry_add`; `opens` says whether `fopen` of the file succeeds.
unfoldable pub registry_add : Bool → List ℕ → Registry → Registry
unfolding has_chain
registry_add opens [] r = r
registry_add opens (b ∷ s) r =
    if has_chain (b ∷ s) r.chains
    then r
    else if leb max_chains (length r.chains)
    then r
    else record {
      chains = r.chains ++ (copy 64 (b ∷ s) ∷ []);
      file = if opens then some (Option.get_or r.file [] ++ ((b ∷ s) ++ (b'\n' ∷ []))) else r.file;
    }

-- The loop that takes line ends off a line.
unfoldable pub strip_end : List ℕ → List ℕ
strip_end [] = []
strip_end (c ∷ s) =
    let t = strip_end s in
    elim t [ [] ↦ if c == b'\n' || c == b'\r' then [] else c ∷ [] | x ∷ xs ↦ c ∷ x ∷ xs ]

-- A line's name joins the table, unless it is empty.
abbrev pub add_name : List (List ℕ) → List ℕ → List (List ℕ)
add_name chains [] = chains
add_name chains (c ∷ s) = chains ++ (copy 64 (c ∷ s) ∷ [])

-- The loop over the lines, read into 128 bytes; each round takes a byte of the file at least.
unfoldable pub read_chains : ℕ → List ℕ → List (List ℕ) → List (List ℕ)
unfolding next_line c_string strip_end
read_chains zero text chains = chains
read_chains (suc fuel) [] chains = chains
read_chains (suc fuel) (c ∷ s) chains =
    let line = next_line 127 (c ∷ s) in
    let rest = read_chains fuel line.1 (add_name chains (strip_end (c_string line.0))) in
    if ltb (length chains) max_chains then rest else chains

-- `registry_load`
unfoldable pub registry_load : Registry → Registry
unfolding read_chains
registry_load r = elim r.chains [
  | c ∷ cs ↦ r
  | [] ↦ elim r.file [
    | none ↦ r
    | some text ↦ record r { chains = read_chains (length text) text [] }
  ]
]

-- The loop that takes out every entry of the name.
unfoldable pub without : List ℕ → List (List ℕ) → List (List ℕ)
without c [] = []
without c (d ∷ ds) = let rest = without c ds in if str_eq d c then rest else d ∷ rest

-- The file as it is written anew: a line for each chain.
unfoldable pub chain_lines : List (List ℕ) → List ℕ
chain_lines [] = []
chain_lines (c ∷ cs) = c ++ (b'\n' ∷ chain_lines cs)

-- `registry_remove`
unfoldable pub registry_remove : Bool → List ℕ → Registry → Registry
unfolding registry_load without chain_lines
registry_remove opens chain r =
    let kept = without chain (registry_load r).chains in
    record {
      chains = kept;
      file = if opens then some (chain_lines kept) else (registry_load r).file;
    }

-- A process that starts: the table is empty, and the file is what it was.
abbrev pub restart : Registry → Registry
restart r = registry_load (record { chains = []; file = r.file })
