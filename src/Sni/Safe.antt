-- ===== src/Sni/Safe.antt =====
-- `sni_find_split` and `sni_shift_case` read inside the handshake only, and their loops end.
use raise_my_freedom.Common.{
  ℕ, zero, suc, ◌+◌, ◌≤◌, ◌<◌, ◌≡◌, refl, ◌&&◌, List, arith, ltb, leb, ◌==◌, length, Scan, fault,
  stop, ok, Ensures, stopped, returned, Ensures-bind, Ensures-guard, Ensures-at, Ensures-be16,
  leb→le, ltb→lt, inl, inr, Bool-cases,
}
use raise_my_freedom.Sni.Hello.{
  Block, be24, find_body, skip8, skip16, find_block, cut_in_name, split_loop, find_split,
}

-- The block lies inside the body, which is the handshake less its four header bytes.
pub record IsInside (hs : List ℕ) (b : Block) : Type 0 where
  pub whole : b.body_len + 4 ≡ length hs
  pub past_random : 37 ≤ b.first
  pub ordered : b.first ≤ b.limit
  pub ends : b.limit ≤ b.body_len

Ensures-be24 : (p : List ℕ) (i : ℕ) → i + 2 < length p → Ensures (λ v. be24 p i ≡ ok v) (be24 p i)
unfolding be24
Ensures-be24 p i h =
    Ensures-bind (Ensures-at p i (omega arith))
      λ a ea. Ensures-bind (Ensures-be16 p (i + 1) (omega arith)) λ r er. returned (rw (ea, er))

find_body-bounds : (hs : List ℕ) → Ensures (λ n. (n + 4 ≡ length hs) × (38 ≤ n)) (find_body hs)
unfolding find_body
find_body-bounds hs = Ensures-bind (Ensures-guard (leb 46 (length hs))) λ _ long.
    let h46 = leb→le 46 (length hs) long in
    Ensures-bind (Ensures-at hs 0 (omega arith)) λ kind _.
      Ensures-bind (Ensures-guard (kind == 0x01)) λ _ _.
        Ensures-bind (Ensures-be24 hs 1 (omega arith)) λ n _.
          Ensures-bind (Ensures-guard (n + 4 == length hs && leb 38 n))
            λ _ same. returned (ground arith)

module _ (hs : List ℕ) (n : ℕ) (whole : n + 4 ≡ length hs) where
  skip8-le : (p : ℕ) → Ensures (λ q. p < q) (skip8 hs n p)
  unfolding skip8
  skip8-le p = Ensures-bind (Ensures-guard (ltb p n)) λ _ g.
      Ensures-bind (Ensures-at hs (4 + p) (omega (arith, ltb→lt p n g)))
        λ len _. returned (omega arith)

  skip16-le : (p : ℕ) → Ensures (λ q. p < q) (skip16 hs n p)
  unfolding skip16
  skip16-le p = Ensures-bind (Ensures-guard (leb (p + 2) n)) λ _ g.
      Ensures-bind (Ensures-be16 hs (4 + p) (omega (arith, leb→le (p + 2) n g)))
        λ len _. returned (omega arith)

pub find_block-IsInside : (hs : List ℕ) → Ensures (IsInside hs) (find_block hs)
unfolding find_block
find_block-IsInside hs = Ensures-bind (find_body-bounds hs) λ n (whole, big).
    Ensures-bind (skip8-le hs n whole (2 + 32)) λ p1 l1.
      Ensures-bind (skip16-le hs n whole p1) λ p2 l2. Ensures-bind (skip8-le hs n whole p2) λ p3 l3.
        Ensures-bind (Ensures-guard (leb (p3 + 2) n)) λ _ g.
          Ensures-bind (Ensures-be16 hs (4 + p3) (omega (arith, leb→le (p3 + 2) n g))) λ e _.
            Ensures-bind (Ensures-guard (leb (p3 + 2 + e) n)) λ _ g2. returned (record {
              whole = whole;
              past_random = omega arith;
              ordered = omega arith;
              ends = leb→le (p3 + 2 + e) n g2;
            })

cut_in_name-bounds :
    (hs_len body_len off nlen : ℕ)
    → (cut : ℕ) → cut_in_name hs_len body_len off nlen ≡ ok cut
    → (8 < cut) × (cut + 1 < hs_len)
unfolding cut_in_name
cut_in_name-bounds hs_len body_len off nlen cut e = ground arith

-- The name's cut if there is one, else what the loop gives further on.
choose :
    {P : ℕ → Type 0} (c : Scan ℕ) {rest : Scan ℕ}
    → Ensures P rest
    → ((cut : ℕ) → c ≡ ok cut → P cut)
    → Ensures P (elim c [ ok cut ↦ ok cut | _ ↦ rest ])
choose fault r h = r
choose stop r h = r
choose (ok cut) r h = returned (h cut refl)

split_loop-bounds :
    (fuel : ℕ) (hs : List ℕ) (b : Block) (p : ℕ)
    → IsInside hs b
    → p ≤ b.limit
    → b.limit < p + fuel
    → Ensures (λ cut. (8 < cut) × (cut + 1 < length hs)) (split_loop fuel hs b p)
unfolding split_loop
split_loop-bounds zero hs b p i hp h = absurd (omega arith)
split_loop-bounds (suc fuel) hs b p i hp h = elim (Bool-cases (leb (p + 4) b.limit)) [
  | inr e ↦ rw (e, split_loop) stopped
  | inl e ↦
      let room = leb→le (p + 4) b.limit e in
      rw (e, split_loop)
        (Ensures-bind (Ensures-be16 hs (4 + p) (omega arith)) λ et _.
          Ensures-bind (Ensures-be16 hs (4 + (p + 2)) (omega arith)) λ el _.
            Ensures-bind (Ensures-guard (leb (p + 4 + el) b.limit)) λ _ g.
              let fits = leb→le (p + 4 + el) b.limit g in
              let rest = split_loop-bounds fuel hs b (p + 4 + el) i fits (omega arith) in
              elim (Bool-cases (et == 0x0000 && leb 5 el)) [
                | inr f ↦ rw f rest
                | inl f ↦ rw f (
                    Ensures-bind (Ensures-be16 hs (4 + (p + 4) + 3) (ground arith)) λ nlen _.
                      choose (cut_in_name (length hs) b.body_len (p + 4 + 5) nlen) rest
                        (cut_in_name-bounds _ _ (p + 4 + 5) nlen))
              ])
]

-- `sni_find_split` never reads outside the handshake, its loop ends, and a cut that it returns
-- lies behind the ninth byte and leaves at least one byte behind the next one.
pub find_split-bounds :
    (hs : List ℕ) → Ensures (λ cut. (8 < cut) × (cut + 1 < length hs)) (find_split hs)
unfolding find_split
find_split-bounds hs =
    Ensures-bind (find_block-IsInside hs)
      λ b i. split_loop-bounds (length hs) hs b b.first i i.ordered (omega arith)
