-- ===== src/Netfilter/Rules/Cleanup.antt =====
-- What a process leaves behind, another one cleans up.
use raise_my_freedom.Common.{ℕ, ◌≡◌, Bool, true, false, not, ◌&&◌, ◌||◌, some, List, [], ◌∷◌}
use raise_my_freedom.SiteConfig.Text.{split_at, str_eq}
use raise_my_freedom.Netfilter.Registry.{Registry, has_chain}
use raise_my_freedom.Netfilter.Registry.Saved.{Distinct}
use raise_my_freedom.Netfilter.Rules.{nf_chain_create, nf_chain_destroy, rule_port, nf_tcp_redirect}

-- What a process does with its chains.
pub data Act : Type 0 where
  creates destroys : List ℕ → Act

abbrev pub name_of : Act → List ℕ
name_of (creates c) = c
name_of (destroys c) = c

-- The registry after a history, where the registry's file can be written.
unfoldable pub history : (ℕ → List ℕ → Bool) → List Act → Registry → Registry
history exits [] r = r
history exits (creates c ∷ acts) r = history exits acts (nf_chain_create true c r).registry
history exits (destroys c ∷ acts) r = history exits acts (nf_chain_destroy exits true c r).registry

-- Whether a chain exists after a history, by the acts alone: it does when the last act on it created
-- it; `now` says whether it exists before.
unfoldable pub exists_after : List ℕ → Bool → List Act → Bool
unfolding str_eq
exists_after n now [] = now
exists_after n now (creates c ∷ acts) = exists_after n (str_eq c n || now) acts
exists_after n now (destroys c ∷ acts) = exists_after n (not (str_eq c n) && now) acts

-- Chains without repetition, which are those that exist after the acts.
pub record Exactly (acts : List Act) (chains : List (List ℕ)) : Type 0 where
  pub distinct : Distinct chains
  pub those : (n : List ℕ) → has_chain n chains ≡ exists_after n false acts

-- For a destination with a slash, a range, `nf_tcp_redirect` runs the same command whatever port it
-- is asked to redirect to.
nf_tcp_redirect_range :
    (chain dest bits : List ℕ) (dport to_port to_port' : ℕ)
    → (split_at b'/' dest).1 ≡ some bits
    → nf_tcp_redirect chain dest dport to_port ≡ nf_tcp_redirect chain dest dport to_port'
unfolding nf_tcp_redirect
nf_tcp_redirect_range chain dest bits dport to_port to_port' e = rw (rule_port, e)
