-- ===== src/Netfilter/Registry/Lines.antt =====
-- The registry's file reads back as the chains it was written from.
use raise_my_freedom.Common.{
  ℕ, zero, suc, ◌+◌, ◌≤◌, ◌<◌, ◌≡◌, ◌≢◌, refl, sym, ap, ◌∙◌, List, [], ◌∷◌, ◌++◌, arith, length,
  take, All, length-append, append_assoc, append-nil, ne→==, lt→ltb,
}
use raise_my_freedom.SiteConfig.Text.{c_string}
use raise_my_freedom.SiteConfig.Config.{next_line}
use raise_my_freedom.Netfilter.Registry.{max_chains, strip_end, read_chains, chain_lines}

-- A byte that may stand in a chain's name: no end of a string or of a line.
abbrev pub IsNameByte : ℕ → Type 0
IsNameByte c = (c ≢ 0) × (c ≢ b'\n') × (c ≢ b'\r')

-- A name of 1 to 63 such bytes.
pub record IsName (c : List ℕ) : Type 0 where
  pub not_empty : 0 < length c
  pub fits : length c < 64
  pub plain : All IsNameByte c

next_line_name :
    (room : ℕ) (c rest : List ℕ)
    → length c < room
    → All IsNameByte c
    → next_line room (c ++ (b'\n' ∷ rest)) ≡ (c ++ (b'\n' ∷ []), rest)
unfolding next_line
next_line_name zero c rest h p = absurd (omega arith)
next_line_name (suc room) [] rest h p = refl
next_line_name (suc room) (b ∷ c) rest h (q, p) =
    rw (next_line_name room c rest (omega arith) p, ne→== b b'\n' q.1)

c_string_name : (c : List ℕ) → All IsNameByte c → c_string (c ++ (b'\n' ∷ [])) ≡ c ++ (b'\n' ∷ [])
unfolding c_string
c_string_name [] p = refl
c_string_name (b ∷ c) (q, p) = rw (ne→== b 0 q.0, c_string_name c p)

strip_end_name : (c : List ℕ) → All IsNameByte c → strip_end (c ++ (b'\n' ∷ [])) ≡ c
unfolding strip_end
strip_end_name [] p = refl
strip_end_name (b ∷ []) (q, p) = rw (ne→== b b'\n' q.1, ne→== b b'\r' q.2)
strip_end_name (b ∷ c ∷ s) (q, p) = rw (strip_end_name (c ∷ s) p)

pub copy_short : (n : ℕ) (c : List ℕ) → length c ≤ n → take n c ≡ c
copy_short zero [] h = refl
copy_short zero (b ∷ c) h = absurd (omega arith)
copy_short (suc n) [] h = refl
copy_short (suc n) (b ∷ c) h = ap (◌∷◌ b) (copy_short n c (omega arith))

read_line :
    (fuel : ℕ) (c rest : List ℕ) (chains : List (List ℕ))
    → IsName c
    → length chains < max_chains
    → read_chains (suc fuel) (c ++ (b'\n' ∷ rest)) chains
      ≡ read_chains fuel rest (chains ++ (c ∷ []))
unfolding read_chains
read_line fuel [] rest chains h room = absurd (omega (arith, h.not_empty))
read_line fuel (b ∷ c) rest chains h room = rw (
  next_line_name 127 (b ∷ c) rest (omega (arith, h.fits)) h.plain,
  c_string_name (b ∷ c) h.plain,
  strip_end_name (b ∷ c) h.plain,
  copy_short 63 (b ∷ c) (omega (arith, h.fits)),
  lt→ltb (length chains) max_chains room,
)

-- Reading the file back gives the chains it was written from.
pub read_chains-chain_lines :
    (fuel : ℕ) (cs chains : List (List ℕ))
    → All IsName cs
    → length (chain_lines cs) ≤ fuel
    → length chains + length cs ≤ max_chains
    → read_chains fuel (chain_lines cs) chains ≡ chains ++ cs
unfolding read_chains chain_lines
read_chains-chain_lines zero [] chains h e room = sym (append-nil chains)
read_chains-chain_lines (suc fuel) [] chains h e room = sym (append-nil chains)
read_chains-chain_lines zero (c ∷ cs) chains h e room =
    absurd (omega (arith, length-append c (b'\n' ∷ chain_lines cs)))
read_chains-chain_lines (suc fuel) (c ∷ cs) chains (hc, h) e room =
    read_line fuel c (chain_lines cs) chains hc (omega arith)
    ∙ read_chains-chain_lines fuel cs (chains ++ (c ∷ [])) h
        (omega (arith, length-append c (b'\n' ∷ chain_lines cs)))
        (omega (arith, length-append chains (c ∷ [])))
    ∙ append_assoc chains (c ∷ []) cs
