-- ===== src/WireGuard/Declared.antt =====
-- backend/wg.go: what `parseWGConfig` makes of a configuration, line by line.
use pwdtt.Prelude.{
  Bool, true, false, Bool-cases, Option-cases, List, [], ◌∷◌, ◌++◌, none, some, ◌≡◌, inl, inr, refl,
  sym, ap, ◌∙◌, arith, if◌then◌else◌,
}
use mathlib.Core.List.{append_assoc, append-nil}
use pwdtt.Prelude.Text.{Text, codes, ◌≗◌, ≗_iff}
use pwdtt.Prelude.TextSet.{mem_text}
use pwdtt.Update.{split}
use pwdtt.WireGuard.{
  WgConfig, wg_quick_only_fields, line_pair, named_parts, read_line, read_lines, scan_lines,
  parse_wg_config, empty_config,
}

-- A line's key is one that `wg setconf` does not know.
abbrev is_quick : Text → Bool
is_quick line = elim (line_pair line) [
  | none ↦ false
  | some (key, val) ↦ mem_text key wg_quick_only_fields
]

abbrev pub others : List Text → List Text
others [] = []
others (l ∷ ls) = let rest = others ls in if is_quick l then rest else l ∷ rest

-- The value of the last line with a key, or the one before.
abbrev value_of : Text → Text → Text → Text
value_of key line old = elim (line_pair line) [
  | none ↦ old
  | some (k, val) ↦ if k ≗ key then val else old
]

abbrev pub last_value : Text → List Text → Text → Text
last_value key [] old = old
last_value key (l ∷ ls) old = last_value key ls (value_of key l old)

abbrev line_ips : Text → List Text
line_ips line = elim (line_pair line) [
  | none ↦ []
  | some (key, val) ↦ if key ≗ codes "allowedips" then named_parts (split b',' val) else []
]

abbrev pub all_ips : List Text → List Text
all_ips [] = []
all_ips (l ∷ ls) = line_ips l ++ all_ips ls

-- One line, as four facts.
abbrev Reads : Text → WgConfig → WgConfig → Type 0
Reads l c r =
    (r.addr ≡ value_of (codes "address") l c.addr)
    × (r.mtu ≡ value_of (codes "mtu") l c.mtu)
    × (r.allowed_ips ≡ c.allowed_ips ++ line_ips l)
    × (r.wg_lines ≡ c.wg_lines ++ (if is_quick l then [] else l ∷ []))

-- Only one of the keys that are looked for can be a line's.
module _ (key : Text) where
  address_key :
      (key ≗ codes "address") ≡ true
      → ((key ≗ codes "mtu") ≡ false)
        × ((key ≗ codes "allowedips") ≡ false)
        × (mem_text key wg_quick_only_fields ≡ true)
  unfolding ◌≗◌ mem_text
  address_key h =
      let same : key ≡ codes "address" = (≗_iff key (codes "address")).0 h in
      rw same (refl, refl, refl)

  mtu_key :
      (key ≗ codes "mtu") ≡ true
      → ((key ≗ codes "allowedips") ≡ false) × (mem_text key wg_quick_only_fields ≡ true)
  unfolding ◌≗◌ mem_text
  mtu_key h = let same : key ≡ codes "mtu" = (≗_iff key (codes "mtu")).0 h in rw same (refl, refl)

  ips_key : (key ≗ codes "allowedips") ≡ true → mem_text key wg_quick_only_fields ≡ false
  unfolding ◌≗◌ mem_text
  ips_key h =
      let same : key ≡ codes "allowedips" = (≗_iff key (codes "allowedips")).0 h in rw same refl

read_line-Reads : (l : Text) (c : WgConfig) → Reads l c (read_line l c)
unfolding read_line
read_line-Reads l c =
    let none_ips = append-nil c.allowed_ips in
    let none_lines = append-nil c.wg_lines in
    elim (Option-cases (line_pair l)) [
      | inl plain ↦ ground (arith, none_ips, none_lines)
      | inr ((key, val), pair) ↦ elim (Bool-cases (key ≗ codes "address")) [
        | inl is_address ↦ ground (arith, none_ips, none_lines, address_key key is_address)
        | inr other ↦ elim (Bool-cases (key ≗ codes "mtu")) [
          | inl is_mtu ↦ ground (arith, none_ips, none_lines, mtu_key key is_mtu)
          | inr neither ↦ elim (Bool-cases (key ≗ codes "allowedips")) [
            | inl is_ips ↦ ground (arith, none_ips, none_lines, ips_key key is_ips)
            | inr rest ↦ ground (arith, none_ips, none_lines)
          ]
        ]
      ]
    ]

one_line :
    (l : Text) (ls : List Text)
    → (if is_quick l then [] else l ∷ []) ++ ls ≡ (if is_quick l then ls else l ∷ ls)
one_line l ls = elim (Bool-cases (is_quick l)) [
  | inl quick ↦ rw quick refl
  | inr kept ↦ rw kept refl
]

read_lines_reads :
    (ls : List Text) (c : WgConfig)
    → ((read_lines ls c).addr ≡ last_value (codes "address") ls c.addr)
      × ((read_lines ls c).mtu ≡ last_value (codes "mtu") ls c.mtu)
      × ((read_lines ls c).allowed_ips ≡ c.allowed_ips ++ all_ips ls)
      × ((read_lines ls c).wg_lines ≡ c.wg_lines ++ others ls)
unfolding read_lines
read_lines_reads [] c = (refl, refl, sym (append-nil c.allowed_ips), sym (append-nil c.wg_lines))
read_lines_reads (l ∷ ls) c =
    let (addr, mtu, ips, lines) = read_line-Reads l c in
    let (addr', mtu', ips', lines') = read_lines_reads ls (read_line l c) in
    (
      addr' ∙ ap (last_value (codes "address") ls) addr,
      mtu' ∙ ap (last_value (codes "mtu") ls) mtu,
      ips' ∙ ap (λ t. t ++ all_ips ls) ips ∙ append_assoc c.allowed_ips (line_ips l) (all_ips ls),
      lines'
          ∙ ap (λ t. t ++ others ls) lines
          ∙ append_assoc c.wg_lines _ (others ls)
          ∙ ap (λ t. c.wg_lines ++ t) (one_line l (others ls)),
    )

-- The configuration that is read has the address and the MTU of the last lines that give one, the
-- allowed addresses of all lines in order, and for `wg setconf` exactly the lines whose key it knows,
-- unchanged and in order.
pub parse_wg_config_lem :
    (conf : Text)
    → let c = parse_wg_config conf in
      (c.addr ≡ last_value (codes "address") (scan_lines conf) [])
      × (c.mtu ≡ last_value (codes "mtu") (scan_lines conf) [])
      × (c.allowed_ips ≡ all_ips (scan_lines conf))
      × (c.wg_lines ≡ others (scan_lines conf))
unfolding parse_wg_config
parse_wg_config_lem conf = read_lines_reads (scan_lines conf) empty_config
