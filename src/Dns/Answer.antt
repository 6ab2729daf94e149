-- ===== src/Dns/Answer.antt =====
-- DNS answers: `parse_a_list` and `parse_a` of dns/doh_resolve.c, and the reader in
-- `dns_resolve_udp` of dns/dns_resolve.c. An address is its four bytes, where the source has
-- their text; the response is the `n` bytes that were received, each below 256.
pub mod Safe
pub mod Lists
use raise_my_freedom.Common.{
  ℕ, zero, suc, ◌+◌, ◌-◌, ◌*◌, ◌/◌, ◌%◌, ◌^◌, ◌≤◌, ◌<◌, Bool, true, false, not, ◌&&◌, ◌||◌, Option,
  none, some, List, [], ◌∷◌, ◌++◌, ltb, leb, ◌==◌, if◌then◌else◌, length, Scan, fault, stop, ok,
  ◌>>=◌, ◌>>◌, guard, at, be16,
}

-- `(b & 0xC0) == 0xC0` for a byte.
abbrev pub is_pointer : ℕ → Bool
is_pointer b = leb 0xC0 b

-- `if (off < n && resp[off] == 0) off++;`
unfoldable pub past_zero : List ℕ → ℕ → Scan ℕ
past_zero p off = elim (ltb off (length p)) [
  | false ↦ ok off
  | true ↦ do b ← at p off; ok (if b == 0 then off + 1 else off)
]

-- The loop over the question's name.
unfoldable pub question_labels : ℕ → List ℕ → ℕ → Scan ℕ
question_labels zero p off = fault
question_labels (suc fuel) p off = elim (ltb off (length p)) [
  | false ↦ ok off
  | true ↦ do
    b ← at p off
    elim (b == 0) [
      | true ↦ ok off
      | false ↦ elim (is_pointer b) [
        | true ↦ ok (off + 2)
        | false ↦ question_labels fuel p (off + (b + 1))
      ]
    ]
]

-- From byte 12 to the first answer.
unfoldable pub skip_question : List ℕ → Scan ℕ
unfolding question_labels past_zero
skip_question p = do
  off ← question_labels (suc (length p)) p 12
  off' ← past_zero p off
  ok (off' + 4)

-- The inner loop over an answer's name.
unfoldable pub owner_labels : ℕ → List ℕ → ℕ → Scan ℕ
owner_labels zero p off = fault
owner_labels (suc fuel) p off = elim (ltb off (length p)) [
  | false ↦ ok off
  | true ↦ do
    b ← at p off
    elim (b == 0 || is_pointer b) [ true ↦ ok off | false ↦ owner_labels fuel p (off + (b + 1)) ]
]

-- The name of an answer: a pointer, or labels and what ends them.
unfoldable pub skip_owner : List ℕ → ℕ → Scan ℕ
unfolding owner_labels
skip_owner p off = do
  b ← at p off
  elim (is_pointer b) [
    | true ↦ ok (off + 2)
    | false ↦ do
      off' ← owner_labels (suc (length p)) p off
      elim (ltb off' (length p)) [
        | false ↦ ok off'
        | true ↦ do e ← at p off'; ok (if e == 0 then off' + 1 else off' + 2)
      ]
  ]

abbrev pub Address : Type 0
Address = List ℕ

-- `resp[off]` to `resp[off + 3]`
unfoldable pub address_at : List ℕ → ℕ → Scan Address
address_at p off = do
  a ← at p off
  b ← at p (off + 1)
  c ← at p (off + 2)
  d ← at p (off + 3)
  ok (a ∷ b ∷ c ∷ d ∷ [])

-- One answer: its address if it is an A record of four bytes, and where the next one begins;
-- `stop` leaves the loop.
unfoldable pub answer : List ℕ → ℕ → Scan (Option Address × ℕ)
unfolding skip_owner address_at
answer p off = do
  off1 ← skip_owner p off
  guard (leb (off1 + 10) (length p))
  kind ← be16 p off1
  rdlen ← be16 p (off1 + 8)
  let off2 = off1 + 10
  elim (kind == 1 && rdlen == 4 && leb (off2 + 4) (length p)) [
    | true ↦ do a ← address_at p off2; ok (some a, off2 + rdlen)
    | false ↦ ok (none, off2 + rdlen)
  ]

unfoldable pub same_address : Address → Address → Bool
same_address [] [] = true
same_address (a ∷ s) (b ∷ t) = a == b && same_address s t
same_address _ _ = false

unfoldable pub is_listed : Address → List Address → Bool
is_listed a [] = false
is_listed a (x ∷ xs) = same_address x a || is_listed a xs

-- `if (!dup) out[(*count)++] = …`
unfoldable pub add_address : List Address → Option Address → List Address
unfolding is_listed same_address
add_address found none = found
add_address found (some a) = if is_listed a found then found else found ++ (a ∷ [])

-- The outer loop of `parse_a_list`: what is found when it ends.
unfoldable pub list_loop : ℕ → List ℕ → ℕ → ℕ → List Address → Scan (List Address)
unfolding answer add_address
list_loop zero p limit off found = fault
list_loop (suc fuel) p limit off found =
    elim (ltb (off + 10) (length p) && ltb (length found) limit) [
      | false ↦ ok found
      | true ↦ elim (answer p off) [
        | fault ↦ fault
        | stop ↦ ok found
        | ok (a, next) ↦ list_loop fuel p limit next (add_address found a)
      ]
    ]

-- The checks in front: twelve bytes, and an answer count above zero.
unfoldable pub check_header : List ℕ → Scan (Unit {0})
check_header p = do guard (leb 12 (length p)); ancount ← be16 p 6; guard (ltb 0 ancount)

-- `parse_a_list`; `stop` is the answer -1.
unfoldable pub parse_a_list : List ℕ → ℕ → Scan (List Address)
parse_a_list p limit = do
  check_header p
  off ← skip_question p
  found ← list_loop (suc (length p)) p limit off []
  guard (ltb 0 (length found))
  ok found

abbrev pub first_of_list : List Address → Scan Address
first_of_list [] = stop
first_of_list (a ∷ rest) = ok a

-- `parse_a`: the first of at most eight.
unfoldable pub parse_a : List ℕ → Scan Address
parse_a p = do found ← parse_a_list p 8; first_of_list found

-- The loop of `dns_resolve_udp`, which returns at the first A record.
unfoldable pub udp_loop : ℕ → List ℕ → ℕ → Scan Address
unfolding answer
udp_loop zero p off = fault
udp_loop (suc fuel) p off = elim (ltb (off + 10) (length p)) [
  | false ↦ stop
  | true ↦ elim (answer p off) [
    | fault ↦ fault
    | stop ↦ stop
    | ok (some a, next) ↦ ok a
    | ok (none, next) ↦ udp_loop fuel p next
  ]
]

-- What `dns_resolve_udp` makes of the bytes received.
unfoldable pub parse_udp : List ℕ → Scan Address
parse_udp p = do
  guard (leb 12 (length p))
  id1 ← at p 0
  id2 ← at p 1
  guard (id1 == 0xAB && id2 == 0xCD)
  check_header p
  off ← skip_question p
  udp_loop (suc (length p)) p off
