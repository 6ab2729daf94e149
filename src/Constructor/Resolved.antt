-- ===== src/Constructor/Resolved.antt =====
-- The name in the constructor's ClientHello is the one that the relay resolves.
use raise_my_freedom.Common.{ℕ, ◌≤◌, ◌≡◌, List, arith, length, ok, take_all}
use raise_my_freedom.Sni.Name.{extract_name}
use raise_my_freedom.Constructor.Split.{ch_body, build_ch}
use raise_my_freedom.Constructor.Agree.{built, build_ch-built}

extract_name-built :
    (host : List ℕ) → 1 ≤ length host → length host ≤ 127 → extract_name (built host) 256 ≡ ok host
unfolding extract_name ch_body
extract_name-built host lo hi = ground (arith, take_all host)

-- For a domain of 1 to 127 bytes, the name that `sni_extract_name` reads from the ClientHello that
-- `build_ch` makes for it, into a buffer of 256 bytes, is that domain.
pub extract_name-build_ch :
    (host : List ℕ)
    → 1 ≤ length host
    → length host ≤ 127
    → (hs : List ℕ) × (build_ch host 2048 ≡ ok hs) × (extract_name hs 256 ≡ ok host)
extract_name-build_ch host lo hi =
    (built host, build_ch-built host hi, extract_name-built host lo hi)
