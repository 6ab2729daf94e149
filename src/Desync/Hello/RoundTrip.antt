-- ===== src/Desync/Hello/RoundTrip.antt =====
-- What `find_sni` and the relay's `sni_find_split` make of the fake ClientHello.
use raise_my_freedom.Common.{
  ℕ, ◌+◌, ◌/◌, ◌%◌, ◌≤◌, ◌≡◌, refl, true, ◌&&◌, List, ◌∷◌, arith, leb, length, take, drop, ok, stop,
  guard-eq-ok, take_all,
}
use raise_my_freedom.Desync.Hello.{find_sni, fake_body, build_fake_hello, is_client_hello_start}
use raise_my_freedom.Sni.Hello.{find_split}

abbrev built : List ℕ → List ℕ
built sni =
    let n = 1 + 3 + 32 + 1 + 2 + 2 + 1 + 1 + 2 + (7 + length sni) in
    0x16 ∷ 0x03 ∷ 0x01 ∷ (n / 256 % 256) ∷ (n % 256) ∷ fake_body sni

length-built : (sni : List ℕ) → length (built sni) ≡ 57 + length sni
unfolding fake_body
length-built sni = omega arith

find_sni-built :
    (sni : List ℕ)
    → 1 ≤ length sni
    → length sni ≤ 250
    → find_sni (built sni) ≡ ok (record { offset = 57; size = length sni })
unfolding find_sni fake_body
find_sni-built sni lo hi = ground arith

drop-built : (sni : List ℕ) → drop 57 (built sni) ≡ sni
unfolding fake_body
drop-built sni = refl

-- A fake hello that `build_fake_hello` makes is 57 bytes longer than its name, begins like a
-- ClientHello, and `find_sni` finds that very name in it, at byte 57.
pub find_sni-build_fake_hello :
    (sni hello : List ℕ) (room : ℕ)
    → build_fake_hello sni room ≡ ok hello
    → (length hello ≡ 57 + length sni)
      × (is_client_hello_start hello ≡ ok true)
      × (find_sni hello ≡ ok (record { offset = 57; size = length sni }))
      × (take (length sni) (drop 57 hello) ≡ sni)
unfolding build_fake_hello is_client_hello_start fake_body
find_sni-build_fake_hello sni hello room e =
    let n = length sni in
    let (g1, e1) = guard-eq-ok (leb 1 n && leb n 250) _ e in
    let (_, e2) =
      guard-eq-ok (leb (5 + (1 + 3 + 32 + 1 + 2 + 2 + 1 + 1 + 2 + (7 + n))) room) _ e1 in
    let shape : built sni ≡ hello = cc e2 in
    rw (← shape) (
      length-built sni,
      ground arith,
      find_sni-built sni (ground (arith, g1)) (ground (arith, g1)),
      rw (drop-built sni) (take_all sni),
    )

-- `build_fake_hello` succeeds for every name of 1 to 250 bytes whose fake fits the buffer.
build_fake_hello_total :
    (sni : List ℕ) (room : ℕ)
    → 1 ≤ length sni
    → length sni ≤ 250
    → 57 + length sni ≤ room
    → (hello : List ℕ) × (build_fake_hello sni room ≡ ok hello)
unfolding build_fake_hello
build_fake_hello_total sni room lo hi fits = (built sni, ground arith)

-- The handshake inside the fake has no server name for the relay's reader of ClientHellos, for
-- every name of 1 to 247 bytes: two bytes of the fixed part are missing, so the reader takes the
-- cipher list for the session id and leaves the message.
pub find_split-fake_body :
    (sni : List ℕ) → 1 ≤ length sni → length sni ≤ 247 → find_split (fake_body sni) ≡ stop
unfolding find_split fake_body
find_split-fake_body sni lo hi = ground arith
