-- ===== src/Examples/Sni.antt =====
-- Runs of the ClientHello's splitter on one handshake.
use raise_my_freedom.Common.{
  ℕ, ◌+◌, ◌-◌, ◌*◌, ◌<◌, ◌≤◌, ◌≡◌, refl, true, List, [], ◌∷◌, ◌++◌, arith, length, ok, stop,
  Ensures, replicate,
}
use raise_my_freedom.Sni.Hello.{
  be24, skip8, skip16, find_body, find_block, cut_in_name, split_loop, find_split, shift_case,
}
use raise_my_freedom.Sni.Safe.{find_split-bounds}
use raise_my_freedom.Sni.Shift.{lower, is_letter, ShiftsOne, shift_case-ShiftsOne}
use raise_my_freedom.Sni.Fragment.{
  announced, whole, build_fragmented, extract_client_hello, part_count, first_cut,
}
use raise_my_freedom.Sni.Fragment.RoundTrip.{
  IsHandshake, extract-build_fragmented, build_fragmented_short,
}

-- A ClientHello of 46 bytes with no extensions.
abbrev bare : List ℕ
bare = 1 ∷ 0 ∷ 0 ∷ 42 ∷ replicate 42 0

-- A ClientHello of 60 bytes for the name "a.io".
abbrev named : List ℕ
named =
    (1 ∷ 0 ∷ 0 ∷ 56 ∷ replicate 34 3)
    ++ (0 ∷ 0 ∷ 2 ∷ 19 ∷ 1 ∷ 1 ∷ 0 ∷ 0 ∷ 13 ∷ 0 ∷ 0 ∷ 0 ∷ 9 ∷ 0 ∷ 7 ∷ 0 ∷ 0 ∷ 4 ∷ b'a' ∷ b'.' ∷ b'i'
        ∷ b'o' ∷ [])

bare-IsHandshake : IsHandshake bare
unfolding announced be24
bare-IsHandshake = refl

named-IsHandshake : IsHandshake named
unfolding announced be24
named-IsHandshake = refl

-- The cut is in the middle of the name.
find_split-named : find_split named ≡ ok 58
unfolding find_split find_block find_body skip8 skip16 split_loop cut_in_name be24
find_split-named = refl

named_room : first_cut named (part_count 3 60) + (part_count 3 60 - 1) ≤ 60
unfolding first_cut part_count find_split find_block find_body skip8 skip16 split_loop cut_in_name
    be24
named_room = omega arith

named_short : 60 < first_cut named (part_count 16 60) + (part_count 16 60 - 1)
unfolding first_cut part_count find_split find_block find_body skip8 skip16 split_loop cut_in_name
    be24
named_short = omega arith

y_is_letter : is_letter b'y' ≡ true
unfolding lower
y_is_letter = refl

extract-build_fragmented_example :
    (out : List ℕ) × (build_fragmented 3 named 131072 ≡ ok out)
    × (length out ≡ length named + 5 * part_count 3 (length named))
    × (extract_client_hello out 65536 ≡ whole named (length out))
extract-build_fragmented_example =
    extract-build_fragmented 3 named named-IsHandshake (omega arith) (omega arith) named_room

build_fragmented_short_example : build_fragmented 16 named 131072 ≡ stop
build_fragmented_short_example = build_fragmented_short 16 named 131072 (omega arith) named_short

find_split-bounds_example : Ensures (λ cut. (8 < cut) × (cut + 1 < length named)) (find_split named)
find_split-bounds_example = find_split-bounds named

shift_case-ShiftsOne_example : Ensures (ShiftsOne named) (shift_case named)
shift_case-ShiftsOne_example = shift_case-ShiftsOne named
