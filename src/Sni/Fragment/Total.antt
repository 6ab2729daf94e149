-- ===== src/Sni/Fragment/Total.antt =====
-- When `sni_build_fragmented_ch` succeeds.
use raise_my_freedom.Common.{
  ℕ, zero, suc, ◌+◌, ◌*◌, ◌/◌, ◌≤◌, ◌<◌, ◌≡◌, ◌&&◌, List, ◌++◌, arith, leb, length, take, drop,
  Scan, stop, ok, min, max, le→leb, lt→leb, Bool-cases, inl, inr, ◌-◌, length-append, length-take,
  length-drop, Ensures, stopped, returned,
}
use native.Mathlib.Nat.{div-add-mod}
use raise_my_freedom.Sni.Hello.{find_split}
use raise_my_freedom.Sni.Safe.{find_split-bounds}
use raise_my_freedom.Sni.Fragment.{tls_record, fragments, part_count, first_cut}

pub length-tls_record : (p : List ℕ) → length (tls_record p) ≡ length p + 5
unfolding tls_record
length-tls_record p = omega arith

-- An even share of `r` bytes leaves one byte at least for each part behind it.
share : (r left : ℕ) → suc left ≤ r → max 1 (r / suc left) + left ≤ r
share r left h = grind (arith, div-add-mod r (suc left))

-- Fewer bytes than parts: every further part is one byte long.
share_short : (r left : ℕ) → r ≤ left → max 1 (r / suc left) ≡ 1
share_short r left h = grind (arith, div-add-mod r (suc left))

pub fragments_total :
    (left : ℕ) (rest : List ℕ) (cut total out_cap : ℕ)
    → 1 ≤ cut
    → cut + left ≤ length rest
    → total + length rest + 5 * suc left ≤ out_cap
    → (out : List ℕ) × (fragments left rest cut total out_cap ≡ ok out)
      × (length out ≡ length rest + 5 * suc left)
unfolding fragments
fragments_total zero rest cut total out_cap pos room h = (
  tls_record rest,
  rw (le→leb 1 (length rest) (omega arith), le→leb (total + 5 + length rest) out_cap (omega arith)),
  omega (arith, length-tls_record rest),
)
fragments_total (suc left) rest cut total out_cap pos room h =
    let r = length-drop cut rest in
    let next = max 1 ((length rest - cut) / suc left) in
    let (more, e, l) =
      fragments_total left (drop cut rest) next (total + 5 + cut) out_cap (omega arith)
        (omega (arith, r, share (length rest - cut) left (omega arith))) (omega (arith, r)) in
    (
      tls_record (take cut rest) ++ more,
      rw (
        le→leb 1 cut pos,
        le→leb cut (length rest) (omega arith),
        le→leb (total + 5 + cut) out_cap (omega arith),
        e,
      ),
      omega (
        arith,
        r,
        l,
        length-append (tls_record (take cut rest)) more,
        length-tls_record (take cut rest),
        length-take cut rest (omega arith),
      ),
    )

fragments_one_short :
    (left : ℕ) (rest : List ℕ) (total out_cap : ℕ)
    → length rest ≤ left
    → fragments left rest 1 total out_cap ≡ stop
unfolding fragments
fragments_one_short zero rest total out_cap h = rw (lt→leb 1 (length rest) (omega arith))
fragments_one_short (suc left) rest total out_cap h = elim (Bool-cases (leb 1 (length rest))) [
  | inr e ↦ rw e
  | inl e ↦
      let r = length-drop 1 rest in
      elim (Bool-cases (leb (total + 5 + 1) out_cap)) [
        | inr f ↦ rw (e, f)
        | inl f ↦ rw (
          e,
          f,
          share_short (length rest - 1) left (omega arith),
          fragments_one_short left (drop 1 rest) (total + 5 + 1) out_cap (omega (arith, r)),
        )
      ]
]

-- A first cut that leaves fewer bytes than parts.
pub fragments_short :
    (left : ℕ) (rest : List ℕ) (cut total out_cap : ℕ)
    → cut < length rest
    → length rest < cut + suc left
    → fragments (suc left) rest cut total out_cap ≡ stop
unfolding fragments
fragments_short left rest cut total out_cap inside h =
    elim (Bool-cases (leb 1 cut && leb cut (length rest))) [
      | inr e ↦ rw e
      | inl e ↦
          let r = length-drop cut rest in
          elim (Bool-cases (leb (total + 5 + cut) out_cap)) [
            | inr f ↦ rw (e, f)
            | inl f ↦ rw (
              e,
              f,
              share_short (length rest - cut) left (omega arith),
              fragments_one_short left (drop cut rest) (total + 5 + cut) out_cap (omega (arith, r)),
            )
          ]
    ]

-- At least two parts and at most sixteen.
pub part_count_bounds :
    (m n : ℕ) → 46 ≤ n → (2 ≤ part_count m n) × (part_count m n ≤ 16) × (part_count m n * 8 ≤ n)
unfolding part_count
part_count_bounds m n h = ground arith

-- The first cut holds the handshake's four header bytes and leaves a byte for the second part.
pub first_cut_bounds :
    (hs : List ℕ) (parts : ℕ)
    → 46 ≤ length hs
    → 2 ≤ parts
    → parts * 8 ≤ length hs
    → (8 ≤ first_cut hs parts) × (first_cut hs parts < length hs)
unfolding first_cut
first_cut_bounds hs parts long two eight = found-bounds (find_split hs) (find_split-bounds hs)
  where
    even : 8 ≤ length hs / parts
    even = grind (arith, div-add-mod (length hs) parts)

    found-bounds :
        (c : Scan ℕ)
        → Ensures (λ cut. (8 < cut) × (cut + 1 < length hs)) c
        → (8 ≤ min (max 1 (elim c [ ok cut ↦ cut | _ ↦ length hs / parts ])) (length hs - 1))
          × (min (max 1 (elim c [ ok cut ↦ cut | _ ↦ length hs / parts ])) (length hs - 1)
              < length hs)
    found-bounds c stopped = omega (arith, even)
    found-bounds c (returned (lo, hi)) = omega arith
