-- ===== src/Constructor/Agree.antt =====
-- The constructor's check and the relay cut a ClientHello at the same byte.
use raise_my_freedom.Common.{
  ℕ, ◌+◌, ◌/◌, ◌%◌, ◌≤◌, ◌≡◌, List, ◌∷◌, arith, length, ok, le→leb, le→ltb,
}
use raise_my_freedom.Constructor.Split.{ch_body, build_ch, find_name, judge_cut, check_split}
use raise_my_freedom.Sni.Hello.{find_split}

abbrev pub built : List ℕ → List ℕ
built host =
    let n = length (ch_body host) in
    0x01 ∷ (n / 65536 % 256) ∷ (n / 256 % 256) ∷ (n % 256) ∷ ch_body host

length-built : (host : List ℕ) → length (built host) ≡ 64 + length host
unfolding ch_body
length-built host = omega arith

pub build_ch-built : (host : List ℕ) → length host ≤ 127 → build_ch host 2048 ≡ ok (built host)
unfolding build_ch
build_ch-built host h =
    rw (le→leb (2 + 32 + 2 + 10 + 2 + 2 + (4 + (5 + length host)) + 4) 2048 (omega arith))

find_name-built :
    (host : List ℕ)
    → length host ≤ 127
    → find_name (built host) ≡ ok (record { name_off = 64; name_len = length host })
unfolding find_name ch_body
find_name-built host h = ground arith

find_split-built :
    (host : List ℕ)
    → 3 ≤ length host
    → length host ≤ 127
    → find_split (built host) ≡ ok (64 + length host / 2)
unfolding find_split ch_body
find_split-built host lo hi = ground arith

-- For a domain of 3 to 127 bytes, the cut that `check_split` judges in its synthetic ClientHello is
-- the one that the relay's `sni_find_split` makes in it, in the middle of the name.
pub check_split-find_split :
    (host : List ℕ) (first_seg delay : ℕ)
    → 3 ≤ length host
    → length host ≤ 127
    → (hs : List ℕ) × (build_ch host 2048 ≡ ok hs)
      × (find_split hs ≡ ok (64 + length host / 2))
      × (check_split host first_seg delay
          ≡ judge_cut (length hs) (64 + length host / 2) first_seg delay)
unfolding check_split
check_split-find_split host first_seg delay lo hi =
    let l = length-built host in
    (
      built host,
      build_ch-built host hi,
      find_split-built host lo hi,
      rw (
        build_ch-built host hi,
        le→ltb (length (built host)) 46 (omega (arith, l)),
        find_name-built host hi,
        check_split,
      ),
    )
