-- ===== src/Update.antt =====
-- backend/update.go: semantic versions, and when one is newer than another. A text is its
-- characters; `strconv.Atoi` fails beyond the 64-bit range.
pub mod Order
pub mod Parsed
pub mod Releases
use pwdtt.Prelude.{
  ℕ, zero, suc, ◌+◌, ◌*◌, ◌-◌, Bool, true, false, not, ◌&&◌, ◌||◌, List, [], ◌∷◌, ◌++◌, Option,
  none, some, ltb, leb, ◌==◌, if◌then◌else◌, length,
}
use pwdtt.Prelude.Text.{Text, codes, trim_space, before, any_char, all_chars, ◌≗◌, less_text}

infixl 5 ◌>>=◌
abbrev pub ◌>>=◌ : {A B : Type 0} → Option A → (A → Option B) → Option B
◌>>=◌ none f = none
◌>>=◌ (some a) f = f a

pub record SemverIdentifier : Type 0 where
  pub value : Text
  pub numeric : Bool
  pub number : ℕ

pub record SemanticVersion : Type 0 where
  pub major : ℕ
  pub minor : ℕ
  pub patch : ℕ
  pub pre : List SemverIdentifier

abbrev pub is_digit : ℕ → Bool
is_digit c = leb b'0' c && leb c b'9'

unfoldable pub is_digits : Text → Bool
is_digits [] = false
is_digits (c ∷ s) = all_chars is_digit (c ∷ s)

-- The value of decimal digits, most significant first, behind the value `n` so far.
unfoldable pub decimal : ℕ → Text → ℕ
decimal n [] = n
decimal n (c ∷ s) = decimal (n * 10 + (c - b'0')) s

-- strconv.Atoi on digits: the largest int is 2^63 - 1.
unfoldable pub atoi : Text → Option ℕ
unfolding decimal
atoi s = let n = decimal 0 s in if leb n 9223372036854775807 then some n else none

-- strings.Split at a one-character separator; never empty.
unfoldable pub split_onto : ℕ → Text → Text → List Text
split_onto sep part [] = part ∷ []
split_onto sep part (c ∷ s) =
    let ended = split_onto sep [] s in
    let longer = split_onto sep (part ++ c ∷ []) s in if c == sep then part ∷ ended else longer

abbrev pub split : ℕ → Text → List Text
split sep s = split_onto sep [] s

-- What stands behind the first separator, if there is one.
unfoldable pub after : ℕ → Text → Option Text
after sep [] = none
after sep (c ∷ s) = let rest = after sep s in if c == sep then some s else rest

abbrev starts_zero : Text → Bool
starts_zero [] = false
starts_zero (c ∷ s) = c == b'0'

unfoldable pub parse_core_number : Text → Option ℕ
parse_core_number value =
    if value ≗ [] || not (is_digits value) || ltb 1 (length value) && starts_zero value
    then none
    else atoi value

abbrev is_identifier_char : ℕ → Bool
is_identifier_char c =
    is_digit c || leb b'A' c && leb c b'Z' || leb b'a' c && leb c b'z' || c == b'-'

unfoldable pub valid_identifier : Bool → Text → Bool
unfolding is_digits
valid_identifier prerelease part =
    not (part ≗ [])
    && all_chars is_identifier_char part
    && not (prerelease && is_digits part && ltb 1 (length part) && starts_zero part)

unfoldable pub valid_identifiers : Bool → List Text → Bool
unfolding valid_identifier
valid_identifiers prerelease [] = true
valid_identifiers prerelease (part ∷ parts) =
    valid_identifier prerelease part && valid_identifiers prerelease parts

unfoldable pub valid_identifier_list : Bool → Text → Bool
unfolding valid_identifiers
valid_identifier_list prerelease value =
    not (value ≗ []) && valid_identifiers prerelease (split b'.' value)

unfoldable pub parse_identifier : Text → Option SemverIdentifier
parse_identifier raw =
    if is_digits raw
    then elim (atoi raw) [
      | none ↦ none
      | some n ↦ some (record { value = raw; numeric = true; number = n })
    ]
    else some (record { value = raw; numeric = false; number = 0 })

unfoldable pub parse_pre : List Text → Option (List SemverIdentifier)
unfolding parse_identifier
parse_pre [] = some []
parse_pre (raw ∷ parts) = do i ← parse_identifier raw; is ← parse_pre parts; some (i ∷ is)

-- The three numbers, and then the identifiers behind the dash.
unfoldable pub parse_parts : List Text → Text → Option SemanticVersion
unfolding parse_core_number parse_pre
parse_parts (a ∷ b ∷ c ∷ []) pre_raw = do
  major ← parse_core_number a
  minor ← parse_core_number b
  patch ← parse_core_number c
  pre ← if pre_raw ≗ [] then some [] else parse_pre (split b'.' pre_raw)
  some (record { major = major; minor = minor; patch = patch; pre = pre })
parse_parts _ pre_raw = none

unfoldable pub trim_v : Text → Text
trim_v [] = []
trim_v (c ∷ s) = if c == b'v' then s else c ∷ s

abbrev pub is_char : ℕ → ℕ → Bool
is_char k c = c == k

-- From the text without build metadata on.
unfoldable pub parse_release : Text → Option SemanticVersion
unfolding parse_parts
parse_release value = elim (after b'-' value) [
  | none ↦ parse_parts (split b'.' value) []
  | some pre_raw ↦
      if valid_identifier_list true pre_raw
      then parse_parts (split b'.' (before (is_char b'-') value)) pre_raw
      else none
]

unfoldable pub parse_semantic_version : Text → Option SemanticVersion
unfolding parse_release
parse_semantic_version version =
    let value = trim_v (trim_space version) in
    if value ≗ [] then none else elim (after b'+' value) [
      | none ↦ parse_release value
      | some metadata ↦
          if valid_identifier_list false metadata
          then parse_release (before (is_char b'+') value)
          else none
    ]

-- The sign of the int that the source returns.
pub data Comparison : Type 0 where
  less equal greater : Comparison

unfoldable pub compare_int : ℕ → ℕ → Comparison
compare_int a b = if ltb a b then less else if ltb b a then greater else equal

unfoldable pub compare_identifiers : SemverIdentifier → SemverIdentifier → Comparison
unfolding compare_int
compare_identifiers left right =
    if left.numeric && right.numeric
    then compare_int left.number right.number
    else if left.numeric
    then less
    else if right.numeric
    then greater
    else if less_text left.value right.value
    then less
    else if less_text right.value left.value
    then greater
    else equal

-- A result that is not zero is returned; otherwise the comparison goes on.
abbrev pub or_else : Comparison → Comparison → Comparison
or_else less next = less
or_else equal next = next
or_else greater next = greater

-- The loop over the identifiers that both have, and the lengths behind it.
unfoldable pub compare_loop : ℕ → ℕ → List SemverIdentifier → List SemverIdentifier → Comparison
unfolding compare_identifiers
compare_loop n k (x ∷ xs) (y ∷ ys) = or_else (compare_identifiers x y) (compare_loop n k xs ys)
compare_loop n k _ _ = compare_int n k

unfoldable pub compare_pre : List SemverIdentifier → List SemverIdentifier → Comparison
unfolding compare_loop
compare_pre [] [] = equal
compare_pre [] (y ∷ ys) = greater
compare_pre (x ∷ xs) [] = less
compare_pre (x ∷ xs) (y ∷ ys) = compare_loop (length (x ∷ xs)) (length (y ∷ ys)) (x ∷ xs) (y ∷ ys)

unfoldable pub compare_semantic_versions : SemanticVersion → SemanticVersion → Comparison
unfolding compare_int compare_pre
compare_semantic_versions a b = or_else (compare_int a.major b.major) (
    or_else (compare_int a.minor b.minor)
      (or_else (compare_int a.patch b.patch) (compare_pre a.pre b.pre)))

abbrev pub is_greater : Comparison → Bool
is_greater greater = true
is_greater _ = false

unfoldable pub is_newer : Text → Text → Bool
unfolding parse_semantic_version compare_semantic_versions
is_newer a b = elim (parse_semantic_version a) [
  | none ↦ false
  | some left ↦ elim (parse_semantic_version b) [
    | none ↦ false
    | some right ↦ is_greater (compare_semantic_versions left right)
  ]
]

unfoldable pub is_comparable_version : Text → Bool
is_comparable_version version = elim (parse_semantic_version version) [
  | none ↦ false
  | some v ↦ true
]
