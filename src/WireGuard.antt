-- ===== src/WireGuard.antt =====
-- backend/wg.go: reading the WireGuard configuration, and on Linux the interface and its routes.
-- What the system's tools answer is an argument.
pub mod Routes
pub mod Restored
pub mod Declared
use pwdtt.Prelude.{
  ℕ, zero, suc, Bool, true, false, not, ◌&&◌, ◌||◌, List, [], ◌∷◌, ◌++◌, Option, none, some, map,
  ◌==◌, leb, if◌then◌else◌,
}
use pwdtt.Prelude.Text.{Text, byte_len, codes, ◌≗◌, trim_space, to_lower, index_of, before}
use pwdtt.Prelude.TextSet.{mem_text}
use pwdtt.Update.{split, after}

-- Keys of wg-quick that `wg setconf` does not know.
abbrev pub wg_quick_only_fields : List Text
wg_quick_only_fields =
    codes "address"
    ∷ codes "dns"
    ∷ codes "mtu"
    ∷ codes "preup"
    ∷ codes "postup"
    ∷ codes "predown"
    ∷ codes "postdown"
    ∷ codes "saveconfig"
    ∷ []

-- strings.SplitN(s, "=", 2): the parts before and behind the first sign, if there is one.
unfoldable split_pair : Text → Option (Text × Text)
split_pair [] = none
split_pair (c ∷ s) =
    let rest = split_pair s in
    if c == b'=' then some ([], s) else elim rest [ none ↦ none | some (k, v) ↦ some (c ∷ k, v) ]

-- bufio.ScanLines: no empty line at the end, and no carriage return before an end of line.
unfoldable without_return : Text → Text
without_return [] = []
without_return (c ∷ []) = if c == 13 then [] else c ∷ []
without_return (c ∷ d ∷ s) = c ∷ without_return (d ∷ s)

unfoldable without_last : List Text → List Text
without_last [] = []
without_last ([] ∷ []) = []
without_last (l ∷ ls) = l ∷ without_last ls

abbrev max_scan_token_size : ℕ
max_scan_token_size = 65536

-- The scan ends before a line for which the scanner's buffer is too small.
unfoldable short_lines : List Text → List Text
short_lines [] = []
short_lines (l ∷ ls) =
    let rest = short_lines ls in if leb max_scan_token_size (byte_len l) then [] else l ∷ rest

unfoldable pub scan_lines : Text → List Text
unfolding without_return without_last short_lines
scan_lines s = map without_return (short_lines (without_last (split 10 s)))

abbrev pub named_parts : List Text → List Text
named_parts [] = []
named_parts (p ∷ ps) =
    let rest = named_parts ps in let c = trim_space p in if c ≗ [] then rest else c ∷ rest

pub record WgConfig : Type 0 where
  pub addr : Text
  pub mtu : Text
  pub allowed_ips : List Text
  pub wg_lines : List Text

-- A line's lower-case key and its value.
unfoldable pub line_pair : Text → Option (Text × Text)
unfolding split_pair
line_pair line = elim (split_pair (trim_space line)) [
  | none ↦ none
  | some (k, v) ↦ some (map to_lower (trim_space k), trim_space v)
]

-- One line: the last address and MTU count, the allowed addresses add up.
unfoldable pub read_line : Text → WgConfig → WgConfig
unfolding line_pair
read_line line c =
    let kept = record c { wg_lines = c.wg_lines ++ line ∷ [] } in
    elim (line_pair line) [
      | none ↦ kept
      | some (key, val) ↦
          if key ≗ codes "address"
          then record c { addr = val }
          else if key ≗ codes "mtu"
          then record c { mtu = val }
          else if key ≗ codes "allowedips"
          then record kept { allowed_ips = c.allowed_ips ++ named_parts (split b',' val) }
          else if mem_text key wg_quick_only_fields
          then c
          else kept
    ]

unfoldable pub read_lines : List Text → WgConfig → WgConfig
unfolding read_line
read_lines [] c = c
read_lines (l ∷ ls) c = read_lines ls (read_line l c)

abbrev pub empty_config : WgConfig
empty_config = record { addr = []; mtu = []; allowed_ips = []; wg_lines = [] }

-- The configuration for `wg setconf` is `wg_lines`, each with an end of line.
unfoldable pub parse_wg_config : Text → WgConfig
unfolding scan_lines read_lines
parse_wg_config conf = read_lines (scan_lines conf) empty_config

unfoldable is_ipv4_full_tunnel : List Text → Bool
is_ipv4_full_tunnel [] = false
is_ipv4_full_tunnel (cidr ∷ cidrs) =
    trim_space cidr ≗ codes "0.0.0.0/0" || is_ipv4_full_tunnel cidrs
