-- ===== src/Core/Mtu.antt =====
-- core/main.go: `patchMTU`, which gives the WireGuard configuration an MTU.
use pwdtt.Prelude.{
  Bool, true, false, ◌||◌, Bool-cases, List, [], ◌∷◌, ◌++◌, ◌==◌, ◌≡◌, ◌⊎◌, inl, inr, refl, sym, ap,
  ◌∙◌, arith, if◌then◌else◌,
}
use mathlib.Core.List.{append_assoc, append-nil}
use pwdtt.Prelude.Text.{Text, codes, ◌≗◌, has_prefix, index_of, trim_space}
use pwdtt.Session.{contains}
use pwdtt.Update.{split, split_onto}

-- strings.Join with ends of line.
unfoldable join_lines : List Text → Text
join_lines [] = []
join_lines (l ∷ []) = l
join_lines (l ∷ m ∷ ls) = l ++ 10 ∷ join_lines (m ∷ ls)

unfoldable pub is_interface : Text → Bool
is_interface line = trim_space line ≗ codes "[Interface]"

unfoldable patch_lines : List Text → List Text
unfolding is_interface
patch_lines [] = []
patch_lines (l ∷ ls) =
    let rest = patch_lines ls in if is_interface l then l ∷ codes "MTU = 1280" ∷ rest else l ∷ rest

abbrev pub mtu_key : Text
mtu_key = codes "MTU ="

unfoldable pub patch_mtu : Text → Text
unfolding patch_lines contains join_lines
patch_mtu conf = if contains conf mtu_key then conf else join_lines (patch_lines (split 10 conf))

unfoldable pub has_interface : List Text → Bool
has_interface [] = false
has_interface (l ∷ ls) = is_interface l || has_interface ls

contains-append : (a s pat : Text) → contains s pat ≡ true → contains (a ++ s) pat ≡ true
unfolding contains index_of
contains-append [] s pat h = h
contains-append (c ∷ a) s pat h = ground (arith, contains-append a s pat h)

join_lines_mtu : (ls : List Text) → contains (join_lines (codes "MTU = 1280" ∷ ls)) mtu_key ≡ true
unfolding join_lines contains index_of has_prefix
join_lines_mtu [] = refl
join_lines_mtu (l ∷ ls) = refl

nothing_contained : contains [] mtu_key ≡ false
unfolding contains index_of has_prefix
nothing_contained = refl

-- A line in front of others does not hide the key.
join_lines_behind :
    (l : Text) (ls : List Text)
    → contains (join_lines ls) mtu_key ≡ true
    → contains (join_lines (l ∷ ls)) mtu_key ≡ true
unfolding join_lines
join_lines_behind l [] h = absurd (ground (arith, nothing_contained, h))
join_lines_behind l (m ∷ ls) h =
    rw (sym (append_assoc l (10 ∷ []) (join_lines (m ∷ ls))))
      (contains-append (l ++ 10 ∷ []) (join_lines (m ∷ ls)) mtu_key h)

patch_lines_mtu :
    (ls : List Text)
    → has_interface ls ≡ true
    → contains (join_lines (patch_lines ls)) mtu_key ≡ true
unfolding patch_lines has_interface
patch_lines_mtu [] h = absurd (ground arith)
patch_lines_mtu (l ∷ ls) h = elim (Bool-cases (is_interface l)) [
  | inl here ↦ rw (here, patch_lines) (join_lines_behind l _ (join_lines_mtu (patch_lines ls)))
  | inr later ↦ rw (later, patch_lines) (join_lines_behind l _ (patch_lines_mtu ls (ground arith)))
]

patch_lines_none : (ls : List Text) → has_interface ls ≡ false → patch_lines ls ≡ ls
unfolding patch_lines has_interface
patch_lines_none [] h = refl
patch_lines_none (l ∷ ls) h = ground (arith, patch_lines_none ls)

-- Splitting gives at least one line, and joining puts the text together again.
split_onto_some : (part s : Text) → (l : Text) × (ls : List Text) × (split_onto 10 part s ≡ l ∷ ls)
unfolding split_onto
split_onto_some part [] = (part, [], refl)
split_onto_some part (c ∷ s) = elim (Bool-cases (c == 10)) [
  | inl ends ↦ (part, split_onto 10 [] s, rw ends refl)
  | inr goes_on ↦ rw goes_on (split_onto_some (part ++ c ∷ []) s)
]

join_lines-split_onto : (part s : Text) → join_lines (split_onto 10 part s) ≡ part ++ s
unfolding join_lines split_onto
join_lines-split_onto part [] = sym (append-nil part)
join_lines-split_onto part (c ∷ s) = elim (Bool-cases (c == 10)) [
  | inr goes_on ↦
      rw goes_on (join_lines-split_onto (part ++ c ∷ []) s ∙ append_assoc part (c ∷ []) s)
  | inl ends ↦
      let (l, ls, e) = split_onto_some [] s in
      let rest = join_lines-split_onto [] s in
      let same : c ≡ 10 = ground (arith, ends) in
      rw (ends, e, same) (ap (λ t. part ++ 10 ∷ t) (rw e at rest))
]

join_lines-split : (s : Text) → join_lines (split 10 s) ≡ s
join_lines-split s = join_lines-split_onto [] s

patch_mtu_keyed : (conf : Text) → contains conf mtu_key ≡ true → patch_mtu conf ≡ conf
unfolding patch_mtu
patch_mtu_keyed conf h = rw (h, patch_mtu) refl

-- A configuration with the key keeps as it is; another one is given the key exactly if one of its
-- lines is the interface's, and otherwise keeps as it is too; patching again changes nothing.
pub patch_mtu_lem :
    (conf : Text)
    → (contains (patch_mtu conf) mtu_key ≡ (contains conf mtu_key || has_interface (split 10 conf)))
      × ((patch_mtu conf ≡ conf)
          ⊎ (contains conf mtu_key ≡ false) × (has_interface (split 10 conf) ≡ true))
      × (patch_mtu (patch_mtu conf) ≡ patch_mtu conf)
unfolding patch_mtu
patch_mtu_lem conf = elim (Bool-cases (contains conf mtu_key)) [
  | inl has ↦ rw (has, patch_mtu) (has, inl refl, rw (has, patch_mtu) refl)
  | inr lacks ↦ elim (Bool-cases (has_interface (split 10 conf))) [
    | inl there ↦
        let patched : patch_mtu conf ≡ join_lines (patch_lines (split 10 conf)) =
          ground (arith, lacks) in
        let keyed : contains (patch_mtu conf) mtu_key ≡ true =
          rw patched (patch_lines_mtu (split 10 conf) there) in
        (ground (arith, keyed, there), inr (lacks, there), patch_mtu_keyed (patch_mtu conf) keyed)
    | inr missing ↦
        let same : patch_mtu conf ≡ conf =
          rw (lacks, patch_mtu, patch_lines_none (split 10 conf) missing) (join_lines-split conf) in
        (ground (arith, same, lacks, missing), inl same, ap patch_mtu same)
  ]
]
