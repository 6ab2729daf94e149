-- ===== src/SiteConfig/Save.antt =====
-- `site_config_save` of common/site_config.c. What the file system answers is a parameter.
pub mod Whole
use raise_my_freedom.Common.{
  ℕ, zero, suc, ◌+◌, ◌-◌, ◌/◌, ◌%◌, Bool, Option, none, some, List, [], ◌∷◌, ◌++◌, ltb,
  if◌then◌else◌, length, take, drop,
}
use mathlib.Core.Option
use raise_my_freedom.SiteConfig.Text.{str_eq, copy}
use raise_my_freedom.SiteConfig.Config.{codes, method_name, Config}
use raise_my_freedom.SiteConfig.Validate.{Reason, validate}

-- The digit of a value below 16, as `%d` and `%x` write it.
abbrev pub digit : ℕ → ℕ
digit d = if ltb d 10 then b'0' + d else b'a' + (d - 10)

-- A number in a base, most significant digit first, in front of `acc`; `fuel` bounds the digits.
unfoldable pub print_number : ℕ → ℕ → ℕ → List ℕ → List ℕ
print_number zero base n acc = acc
print_number (suc fuel) base n acc =
    let more = print_number fuel base (n / base) (digit (n % base) ∷ acc) in
    if ltb n base then digit n ∷ acc else more

-- `%d` of a port that was validated, and `0x%02x` of a mark: a 32-bit number has at most ten
-- decimal and eight hexadecimal digits.
unfoldable pub print_decimal : ℕ → List ℕ
unfolding print_number
print_decimal n = print_number 10 10 n []

unfoldable pub print_mark : ℕ → List ℕ
unfolding print_number
print_mark n =
    let body = print_number 8 16 n [] in codes "0x" ++ (if ltb n 16 then b'0' ∷ body else body)

abbrev pub entry : List ℕ → List ℕ → List ℕ
entry head value = head ++ (value ++ (b'\n' ∷ []))

abbrev pub optional_entry : List ℕ → List ℕ → List ℕ
optional_entry head [] = []
optional_entry head (c ∷ s) = entry head (c ∷ s)

unfoldable pub entries : List ℕ → List (List ℕ) → List ℕ
entries head [] = []
entries head (v ∷ rest) = entry head v ++ entries head rest

-- The UTF-8 bytes of code points below 2^16.
unfoldable pub utf8 : List ℕ → List ℕ
utf8 [] = []
utf8 (c ∷ s) =
    (if ltb c 0x80
      then c ∷ []
      else if ltb c 0x800
      then (0xC0 + c / 64) ∷ (0x80 + c % 64) ∷ []
      else (0xE0 + c / 4096) ∷ (0x80 + c / 64 % 64) ∷ (0x80 + c % 64) ∷ [])
    ++ utf8 s

-- The two comment lines.
unfoldable pub comment : List ℕ
unfolding utf8
comment =
    utf8 (codes "# Параметры модуля. Правь руками или через веб — файл\n")
    ++ utf8 (codes "# перекрывает значения, собранные из макросов.\n")

-- All that the `fprintf` calls write.
unfoldable pub file_text : Config → List ℕ
unfolding comment entries print_decimal print_mark
file_text c =
    comment
    ++ (optional_entry (codes "label        = ") c.label
        ++ (optional_entry (codes "chain        = ") c.chain
            ++ (entry (codes "method       = ") (method_name c.method)
                ++ (entry (codes "dns_port     = ") (print_decimal c.dns_port)
                    ++ (entry (codes "relay_port   = ") (print_decimal c.relay_port)
                        ++ (entry (codes "mark         = ") (print_mark c.mark)
                            ++ (entry (codes "primary_dns  = ") c.primary_dns
                                ++ (entry (codes "fallback_dns = ") c.fallback_dns
                                    ++ (entries (codes "domain       = ") c.domains
                                        ++ (entries (codes "cidr         = ") c.cidrs
                                            ++ entries (codes "fallback_ip  = ")
                                                c.fallback_ips))))))))))

-- Whether `fopen` of the temporary file, `fclose` and `rename` succeed, the size of the blocks in
-- which the stream is written, and how many of them are where `fclose` fails.
pub record Disk : Type 0 where
  pub opens : Bool
  pub closes : Bool
  pub renames : Bool
  pub block : ℕ
  pub blocks : ℕ

pub data Saved : Type 0 where
  invalid : Reason → Saved
  cannot_open : Saved
  write_failed : Saved
  rename_failed : Saved
  saved : Saved

-- What is done to the files, one after the other.
pub data Step : Type 0 where
  opens_tmp : Step
  writes : List ℕ → Step
  removes_tmp : Step
  renames_tmp : Step

-- The files by their paths.
abbrev pub Files : Type 0
Files = List ℕ → Option (List ℕ)

unfoldable pub set_file : List ℕ → Option (List ℕ) → Files → Files
unfolding str_eq
set_file path content files q = if str_eq q path then content else files q

-- `tmp`: the path with `.tmp`, cut to 511 bytes.
unfoldable pub tmp_path : List ℕ → List ℕ
tmp_path path = copy 512 (path ++ codes ".tmp")

unfoldable pub run_step : List ℕ → Step → Files → Files
unfolding set_file tmp_path
run_step path opens_tmp files = set_file (tmp_path path) (some []) files
run_step path (writes text) files =
    set_file (tmp_path path) (some (Option.get_or (files (tmp_path path)) [] ++ text)) files
run_step path removes_tmp files = set_file (tmp_path path) none files
run_step path renames_tmp files =
    set_file path (files (tmp_path path)) (set_file (tmp_path path) none files)

unfoldable pub run : List ℕ → List Step → Files → Files
unfolding run_step
run path [] files = files
run path (step ∷ steps) files = run path steps (run_step path step files)

-- The writes of a text, a block at a time.
unfoldable pub in_blocks : ℕ → ℕ → List ℕ → List Step
in_blocks zero block text = []
in_blocks (suc fuel) block [] = []
in_blocks (suc fuel) block (c ∷ s) =
    writes (take block (c ∷ s)) ∷ in_blocks fuel block (drop block (c ∷ s))

-- `site_config_save`: the answer, and what is done to the files.
unfoldable pub save : Disk → Config → Saved × List Step
unfolding in_blocks file_text
save disk c =
    let text = file_text c in
    let written = in_blocks (length text) disk.block text in
    elim (validate c) [
      | some why ↦ (invalid why, [])
      | none ↦
          if disk.opens
          then if disk.closes
            then if disk.renames
              then (saved, opens_tmp ∷ (written ++ (renames_tmp ∷ [])))
              else (rename_failed, opens_tmp ∷ (written ++ (removes_tmp ∷ [])))
            else (write_failed, opens_tmp ∷ (take disk.blocks written ++ (removes_tmp ∷ [])))
          else (cannot_open, [])
    ]
