-- ===== src/Constructor/Split.antt =====
-- The fragmentation check of constructor/validate.c: `build_ch` and the cut of `check_split`.
use raise_my_freedom.Common.{
  ℕ, zero, suc, ◌+◌, ◌*◌, ◌/◌, ◌%◌, ◌^◌, Bool, true, false, not, ◌&&◌, ◌||◌, List, [], ◌∷◌, ◌++◌,
  ltb, leb, ◌==◌, if◌then◌else◌, length, Scan, fault, stop, ok, ◌>>=◌, ◌>>◌, guard, at, be16,
}

abbrev high : ℕ → ℕ
high n = n / 256 % 256

abbrev low : ℕ → ℕ
low n = n % 256

-- `for (i = 0; i < 32; i++) hs[n++] = i * 7 + 3`, from `i` on.
unfoldable pub random_bytes : ℕ → ℕ → List ℕ
random_bytes zero i = []
random_bytes (suc left) i = (i * 7 + 3) % 256 ∷ random_bytes left (i + 1)

-- What `build_ch` writes behind the four header bytes.
unfoldable pub ch_body : List ℕ → List ℕ
unfolding random_bytes
ch_body host =
    let hl = length host in
    let sni_data = 5 + hl in
    let ext_total = 4 + sni_data in
    let list_len = 3 + hl in
    0x03
    ∷ 0x03
    ∷ (random_bytes 32 0
        ++ (0x00
            ∷ 0x00
            ∷ 0x0a
            ∷ 0x13
            ∷ 0x01
            ∷ 0x13
            ∷ 0x02
            ∷ 0xc0
            ∷ 0x2b
            ∷ 0xc0
            ∷ 0x2f
            ∷ 0x00
            ∷ 0x9e
            ∷ 0x01
            ∷ 0x00
            ∷ high ext_total
            ∷ low ext_total
            ∷ 0x00
            ∷ 0x00
            ∷ high sni_data
            ∷ low sni_data
            ∷ high list_len
            ∷ low list_len
            ∷ 0x00
            ∷ high hl
            ∷ low hl
            ∷ host))

-- `build_ch`; `stop` is the answer -1.
unfoldable pub build_ch : List ℕ → ℕ → Scan (List ℕ)
unfolding ch_body
build_ch host room = do
  let ext_total = 4 + (5 + length host)
  guard (leb (2 + 32 + 2 + 10 + 2 + 2 + ext_total + 4) room)
  let body = ch_body host
  let n = length body
  ok (0x01 ∷ (n / 65536 % 256) ∷ high n ∷ low n ∷ body)

-- Where the name lies: `name_off` and `name_len`.
pub record Found : Type 0 where
  pub name_off : ℕ
  pub name_len : ℕ

-- The `while` loop of `check_split`; `stop` leaves `name_off` at -1.
unfoldable pub find_loop : ℕ → List ℕ → ℕ → ℕ → Scan Found
find_loop zero hs limit p = fault
find_loop (suc fuel) hs limit p = elim (leb (p + 4) limit) [
  | false ↦ stop
  | true ↦ do
    et ← be16 hs (4 + p)
    el ← be16 hs (4 + (p + 2))
    guard (leb (p + 4 + el) limit)
    elim (et == 0x0000 && leb 5 el) [
      | false ↦ find_loop fuel hs limit (p + 4 + el)
      | true ↦ do
        len ← be16 hs (4 + (p + 4) + 3)
        ok (record { name_off = 4 + p + 4 + 5; name_len = len })
    ]
]

-- The walk of `check_split` to the extensions, and the loop.
unfoldable pub find_name : List ℕ → Scan Found
unfolding find_loop
find_name hs = do
  sid ← at hs (4 + (2 + 32))
  let p1 = 2 + 32 + (1 + sid)
  cs ← be16 hs (4 + p1)
  let p2 = p1 + (2 + cs)
  comp ← at hs (4 + p2)
  let p3 = p2 + (1 + comp)
  ext_total ← be16 hs (4 + p3)
  find_loop (length hs) hs (p3 + 2 + ext_total) (p3 + 2)

-- How `check_split` ends: why it is fatal, or the warnings about the segment and the pause.
pub data SplitCheck : Type 0 where
  not_built not_found cut_outside segment_too_long : SplitCheck
  splits : ℕ → Bool → Bool → SplitCheck

-- The checks on the cut: `first_seg` and `delay` are 32-bit patterns of ints.
unfoldable pub judge_cut : ℕ → ℕ → ℕ → ℕ → SplitCheck
judge_cut hs_len cut first_seg delay =
    let negative = leb (2 ^ 31) first_seg in
    if ltb cut 2 || leb hs_len cut
    then cut_outside
    else if not negative && leb (5 + cut) first_seg
    then segment_too_long
    else splits cut (negative || ltb first_seg 4)
        (leb (2 ^ 31) delay || ltb delay 5 || ltb 200 delay)

-- `check_split` on the first domain.
unfoldable pub check_split : List ℕ → ℕ → ℕ → SplitCheck
check_split domain first_seg delay = elim (build_ch domain 2048) [
  | ok hs ↦ if ltb (length hs) 46 then not_built else elim (find_name hs) [
    | ok f ↦ judge_cut (length hs) (f.name_off + f.name_len / 2) first_seg delay
    | _ ↦ not_found
  ]
  | _ ↦ not_built
]
