-- ===== src/Proxy/Hosts.antt =====
-- The file of hosts of proxy/proxy.c, and how a name finds its address in it.
pub mod Lookup
use raise_my_freedom.Common.{
  ℕ, ◌+◌, ◌-◌, Bool, true, false, ◌&&◌, ◌||◌, Option, none, some, List, [], ◌∷◌, ◌++◌, ltb, leb,
  ◌==◌, if◌then◌else◌, length, drop, get_or,
}
use raise_my_freedom.SiteConfig.Text.{c_string, str_case_eq, copy, split_at, trim_front}

-- `struct hosts`
pub record Host : Type 0 where
  pub domain : List ℕ
  pub ip : List ℕ

abbrev pub max_hosts : ℕ
max_hosts = 512

-- `line[strcspn(line, "\r\n")] = 0`
unfoldable pub cut_line : List ℕ → List ℕ
cut_line [] = []
cut_line (c ∷ s) = if c == 0 || c == b'\r' || c == b'\n' then [] else c ∷ cut_line s

-- A line's host: the name in front of the first blank, and an address that `inet_pton` takes.
unfoldable pub host_of_line : (List ℕ → Option (List ℕ)) → List ℕ → Option Host
unfolding cut_line split_at trim_front
host_of_line pton line =
    let text = cut_line line in
    if get_or text 0 0 == b'#' || length text == 0 then none else elim (split_at b' ' text).1 [
      | none ↦ none
      | some behind ↦
          let ip = trim_front behind in
          elim (pton ip) [
            | none ↦ none
            | some a ↦ some (record { domain = copy 128 (split_at b' ' text).0; ip = copy 64 ip })
          ]
    ]

-- The loop of `load_hosts` over the lines that `fgets` reads.
unfoldable pub load_hosts : (List ℕ → Option (List ℕ)) → List (List ℕ) → List Host → List Host
unfolding host_of_line
load_hosts pton [] hosts = hosts
load_hosts pton (line ∷ lines) hosts =
    let more : List Host = elim (host_of_line pton line) [
      | none ↦ hosts
      | some h ↦ hosts ++ (h ∷ [])
    ] in
    let rest = load_hosts pton lines more in if ltb (length hosts) max_hosts then rest else hosts

-- Without one dot at the end.
unfoldable pub strip_dot : List ℕ → List ℕ
strip_dot [] = []
strip_dot (c ∷ []) = if c == b'.' then [] else c ∷ []
strip_dot (c ∷ (d ∷ s)) = c ∷ strip_dot (d ∷ s)

-- `tmp` of `find_host`
unfoldable pub searched : List ℕ → List ℕ
unfolding c_string strip_dot
searched dom = strip_dot (copy 256 (c_string dom))

-- The test of the second loop.
unfoldable pub ends_in : List ℕ → List ℕ → Bool
unfolding str_case_eq
ends_in name domain =
    ltb (length domain) (length name)
    && get_or name (length name - length domain) 0 == b'.'
    && str_case_eq (drop (length name - length domain) name) domain

unfoldable pub first_host : (List ℕ → Bool) → List Host → Option (List ℕ)
first_host accepts [] = none
first_host accepts (h ∷ hosts) = if accepts h.domain then some h.ip else first_host accepts hosts

unfoldable pub find_host : List Host → List ℕ → Option (List ℕ)
unfolding first_host searched ends_in str_case_eq
find_host hosts dom = elim (first_host (str_case_eq (searched dom)) hosts) [
  | some ip ↦ some ip
  | none ↦ first_host (ends_in (searched dom)) hosts
]
