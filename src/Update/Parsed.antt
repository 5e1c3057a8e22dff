-- ===== src/Update/Parsed.antt =====
-- What a text shows that is a semantic version.
use pwdtt.Prelude.{
  ℕ, ◌≤◌, true, ◌||◌, Bool-cases, Option-cases, List, [], ◌∷◌, Option, none, some, if◌then◌else◌,
  ◌≡◌, refl, arith, All, inl, inr,
}
use pwdtt.Prelude.Text.{Text, before, trim_space, ◌≗◌}
use pwdtt.Update.{
  SemverIdentifier, SemanticVersion, is_digits, decimal, atoi, split, after, parse_core_number,
  valid_identifier, valid_identifiers, valid_identifier_list, parse_identifier, parse_pre,
  parse_parts, parse_release, parse_semantic_version, trim_v, is_char, ◌>>=◌,
}

abbrev max_int : ℕ
max_int = 9223372036854775807

-- A prerelease identifier: letters, digits and dashes, and its number if it is one.
pub record IsIdentifier (i : SemverIdentifier) : Type 0 where
  pub valid : valid_identifier true i.value ≡ true
  numeric_is : i.numeric ≡ is_digits i.value
  number_is : i.number ≡ (if i.numeric then decimal 0 i.value else 0)
  pub small : i.number ≤ max_int

pub record IsVersion (v : SemanticVersion) : Type 0 where
  major_small : v.major ≤ max_int
  minor_small : v.minor ≤ max_int
  patch_small : v.patch ≤ max_int
  pub identifiers : All IsIdentifier v.pre

bind_some :
    {A B : Type 0} (o : Option A) (f : A → Option B) {b : B}
    → (o >>= f) ≡ some b
    → (a : A) × (o ≡ some a) × (f a ≡ some b)
bind_some none f h = absurd (ground arith)
bind_some (some a) f h = (a, refl, h)

atoi_small : (s : Text) (n : ℕ) → atoi s ≡ some n → n ≤ max_int
unfolding atoi
atoi_small s n h = ground arith

parse_core_number_small : (s : Text) (n : ℕ) → parse_core_number s ≡ some n → n ≤ max_int
unfolding parse_core_number
parse_core_number_small s n h = ground (arith, atoi_small s n)

parse_identifier-IsIdentifier :
    (raw : Text) (i : SemverIdentifier)
    → valid_identifier true raw ≡ true
    → parse_identifier raw ≡ some i
    → IsIdentifier i
unfolding parse_identifier atoi
parse_identifier-IsIdentifier raw i v h = record {
  valid = ground arith;
  numeric_is = ground arith;
  number_is = ground arith;
  small = ground arith;
}

parse_pre-IsIdentifier :
    (parts : List Text) (pre : List SemverIdentifier)
    → valid_identifiers true parts ≡ true
    → parse_pre parts ≡ some pre
    → All IsIdentifier pre
unfolding parse_pre valid_identifiers
parse_pre-IsIdentifier [] [] v h = tt
parse_pre-IsIdentifier [] (i ∷ is) v h = absurd (ground arith)
parse_pre-IsIdentifier (raw ∷ parts) pre v h =
    let (i, p, k) = bind_some (parse_identifier raw) _ h in
    let (is, q, e) = bind_some (parse_pre parts) _ k in
    let known : pre ≡ i ∷ is = ground arith in
    rw known (
      parse_identifier-IsIdentifier raw i (ground arith) p,
      parse_pre-IsIdentifier parts is (ground arith) q,
    )

parse_parts-IsVersion :
    (parts : List Text) (pre_raw : Text) (v : SemanticVersion)
    → (pre_raw ≗ [] || valid_identifier_list true pre_raw) ≡ true
    → parse_parts parts pre_raw ≡ some v
    → IsVersion v
unfolding parse_parts valid_identifier_list
parse_parts-IsVersion [] pre_raw v g h = absurd (ground arith)
parse_parts-IsVersion (a ∷ []) pre_raw v g h = absurd (ground arith)
parse_parts-IsVersion (a ∷ b ∷ []) pre_raw v g h = absurd (ground arith)
parse_parts-IsVersion (a ∷ b ∷ c ∷ d ∷ rest) pre_raw v g h = absurd (ground arith)
parse_parts-IsVersion (a ∷ b ∷ c ∷ []) pre_raw v g h =
    let (major, p, h₁) = bind_some (parse_core_number a) _ h in
    let (minor, q, h₂) = bind_some (parse_core_number b) _ h₁ in
    let (patch, r, h₃) = bind_some (parse_core_number c) _ h₂ in
    let (pre, s, h₄) =
      bind_some (if pre_raw ≗ [] then some [] else parse_pre (split b'.' pre_raw)) _ h₃ in
    let known : v ≡ record { major = major; minor = minor; patch = patch; pre = pre } =
      ground arith in
    rw known (record {
      major_small = parse_core_number_small a major p;
      minor_small = parse_core_number_small b minor q;
      patch_small = parse_core_number_small c patch r;
      identifiers = elim (Bool-cases (pre_raw ≗ [])) [
        | inl bare ↦ let e : pre ≡ [] = ground arith in rw e tt
        | inr dashed ↦ parse_pre-IsIdentifier (split b'.' pre_raw) pre (ground arith) (ground arith)
      ];
    })

parse_release-IsVersion :
    (value : Text) (v : SemanticVersion) → parse_release value ≡ some v → IsVersion v
unfolding parse_release ◌≗◌
parse_release-IsVersion value v h = elim (Option-cases (after b'-' value)) [
  | inl bare ↦ parse_parts-IsVersion (split b'.' value) [] v refl (ground arith)
  | inr (pre_raw, dashed) ↦
      parse_parts-IsVersion (split b'.' (before (is_char b'-') value)) pre_raw v (ground arith)
        (ground arith)
]

-- A text that is read as a version has numbers within the 64-bit range, and its prerelease
-- identifiers are letters, digits and dashes without leading zeros; those of digits alone, and no
-- others, count as numbers, with their decimal value.
pub parse_semantic_version-IsVersion :
    (version : Text) (v : SemanticVersion) → parse_semantic_version version ≡ some v → IsVersion v
unfolding parse_semantic_version
parse_semantic_version-IsVersion version v h =
    let value = trim_v (trim_space version) in
    elim (Option-cases (after b'+' value)) [
      | inl bare ↦ parse_release-IsVersion value v (ground arith)
      | inr (metadata, built) ↦
          parse_release-IsVersion (before (is_char b'+') value) v (ground arith)
    ]
