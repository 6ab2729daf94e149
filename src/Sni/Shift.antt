-- ===== src/Sni/Shift.antt =====
-- What `sni_shift_case` does to the handshake.
use raise_my_freedom.Common.{
  ℕ, zero, suc, ◌+◌, ◌≤◌, ◌<◌, ◌≡◌, ◌≢◌, refl, Bool, true, ◌&&◌, List, arith, ltb, leb, ◌==◌,
  if◌then◌else◌, length, set, ok, at, Ensures, stopped, returned, Ensures-bind, Ensures-guard,
  Ensures-at, Ensures-be16, leb→le, inl, inr, Bool-cases, length-set,
}
use raise_my_freedom.Sni.Hello.{Block, shift_byte, shift_loop, shift_case}
use raise_my_freedom.Sni.Safe.{IsInside, find_block-IsInside}

-- `tolower` on ASCII.
unfoldable pub lower : ℕ → ℕ
lower c = if leb b'A' c && leb c b'Z' then c + 32 else c

-- One byte of the handshake behind its fixed part is shifted, and no other byte changes.
pub record ShiftsOne (hs hs' : List ℕ) : Type 0 where
  pub place : ℕ
  pub byte : ℕ
  pub behind : 46 ≤ place
  pub inside : place < length hs
  pub was : at hs place ≡ ok byte
  pub now : hs' ≡ set hs place (shift_byte byte)

shift_loop-ShiftsOne :
    (fuel : ℕ) (hs : List ℕ) (b : Block) (p : ℕ)
    → IsInside hs b
    → 37 ≤ p
    → p ≤ b.limit
    → b.limit < p + fuel
    → Ensures (ShiftsOne hs) (shift_loop fuel hs b p)
unfolding shift_loop
shift_loop-ShiftsOne zero hs b p i low hp h = absurd (omega arith)
shift_loop-ShiftsOne (suc fuel) hs b p i low hp h = elim (Bool-cases (leb (p + 4) b.limit)) [
  | inr e ↦ rw (e, shift_loop) stopped
  | inl e ↦
      let room = leb→le (p + 4) b.limit e in
      rw (e, shift_loop)
        (Ensures-bind (Ensures-be16 hs (4 + p) (omega arith)) λ et _.
          Ensures-bind (Ensures-be16 hs (4 + (p + 2)) (omega arith)) λ el _.
            Ensures-bind (Ensures-guard (leb (p + 4 + el) b.limit)) λ _ g.
              let fits = leb→le (p + 4 + el) b.limit g in
              let rest =
                shift_loop-ShiftsOne fuel hs b (p + 4 + el) i (omega arith) fits (omega arith) in
              elim (Bool-cases (et == 0x0000 && leb 5 el)) [
                | inr f ↦ rw f rest
                | inl f ↦ rw f (
                    Ensures-bind (Ensures-be16 hs (4 + (p + 4) + 3) (ground arith)) λ nlen _.
                      Ensures-bind (Ensures-guard (ltb 0 nlen && leb (p + 4 + 5 + nlen) b.body_len))
                        λ _ w.
                          let inside =
                            name_inside (length hs) b.body_len (p + 4 + 5) nlen i.whole w in
                          Ensures-bind (Ensures-at hs (4 + (p + 4 + 5)) inside) λ c was.
                            returned (record {
                              place = 4 + (p + 4 + 5);
                              byte = c;
                              behind = omega arith;
                              inside = inside;
                              was = was;
                              now = refl;
                            }))
              ])
]
  where
    name_inside :
        (hs_len n off nlen : ℕ)
        → n + 4 ≡ hs_len
        → (ltb 0 nlen && leb (off + nlen) n) ≡ true
        → 4 + off < hs_len
    name_inside hs_len n off nlen w g = ground arith

-- `sni_shift_case` reads and writes inside the handshake only and its loop ends; where it changes
-- the handshake, it shifts one byte behind the 46th and leaves every other byte as it is.
pub shift_case-ShiftsOne : (hs : List ℕ) → Ensures (ShiftsOne hs) (shift_case hs)
unfolding shift_case
shift_case-ShiftsOne hs =
    Ensures-bind (find_block-IsInside hs)
      λ b i. shift_loop-ShiftsOne (length hs) hs b b.first i i.past_random i.ordered (omega arith)

-- The handshake keeps its length, so no length field has to change.
pub ShiftsOne-length : {hs hs' : List ℕ} → ShiftsOne hs hs' → length hs' ≡ length hs
ShiftsOne-length {hs} s = rw s.now (length-set hs s.place (shift_byte s.byte))

abbrev pub is_letter : ℕ → Bool
is_letter c = leb b'a' (lower c) && leb (lower c) b'z'

-- A letter becomes the same letter in the other case, and a second shift brings it back.
pub shift_byte_letter :
    (c : ℕ)
    → is_letter c ≡ true
    → (lower (shift_byte c) ≡ lower c) × (shift_byte c ≢ c) × (shift_byte (shift_byte c) ≡ c)
unfolding shift_byte lower
shift_byte_letter c h = ground arith

-- A digit becomes a letter: for a name that begins with one, `sni_shift_case` does not change
-- case but the name itself.
shift_byte_digit :
    (c : ℕ)
    → b'0' ≤ c
    → c ≤ b'9'
    → (lower (shift_byte c) ≢ lower c) × (is_letter (shift_byte c) ≡ true)
unfolding shift_byte lower
shift_byte_digit c lo hi = ground arith
