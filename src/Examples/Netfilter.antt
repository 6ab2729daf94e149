-- ===== src/Examples/Netfilter.antt =====
-- Runs of the packet filter's rules on concrete names.
use raise_my_freedom.Common.{ℕ, ◌≡◌, refl, Bool, true, List, [], ◌∷◌, ok, arith}
use raise_my_freedom.Dns.Query.{codes, labels, split_label}
use raise_my_freedom.Netfilter.Pattern.{hex_bytes, hex_labels, nf_wire_hex_pattern}
use raise_my_freedom.Netfilter.Pattern.Wire.{Writes, nf_wire_hex_pattern-labels}
use raise_my_freedom.Netfilter.Rules.Cleanup.{creates, destroys, Act}

abbrev a_io : List ℕ
a_io = b'a' ∷ b'.' ∷ b'i' ∷ b'o' ∷ []

nf_wire_hex_pattern-a_io : nf_wire_hex_pattern a_io 64 ≡ ok (codes "016102696F")
unfolding nf_wire_hex_pattern hex_labels hex_bytes
nf_wire_hex_pattern-a_io = refl

labels-a_io : labels 5 a_io 12 500 ≡ ok (1 ∷ b'a' ∷ 2 ∷ b'i' ∷ b'o' ∷ [])
unfolding labels split_label
labels-a_io = refl

nf_wire_hex_pattern-labels_example : Writes (codes "016102696F") (1 ∷ b'a' ∷ 2 ∷ b'i' ∷ b'o' ∷ [])
nf_wire_hex_pattern-labels_example =
    nf_wire_hex_pattern-labels a_io (codes "016102696F") (1 ∷ b'a' ∷ 2 ∷ b'i' ∷ b'o' ∷ []) 64 500
      (omega arith, (omega arith, (omega arith, (omega arith, tt)))) nf_wire_hex_pattern-a_io
      labels-a_io

abbrev exits : ℕ → List ℕ → Bool
exits n command = true

-- Two chains are made and one of them is destroyed.
abbrev acts : List Act
acts = creates (codes "FREEDOM") ∷ creates (codes "DISCORD") ∷ destroys (codes "FREEDOM") ∷ []
