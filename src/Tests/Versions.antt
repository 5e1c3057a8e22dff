-- ===== src/Tests/Versions.antt =====
-- Runs for the versions of backend/update.go.
use pwdtt.Prelude.{true, false, not, ◌&&◌, [], ◌∷◌, some, ◌≡◌, refl}
use pwdtt.Prelude.Text.{Text, codes, ◌≗◌, trim_space, all_chars, before}
use pwdtt.Update.{
  SemanticVersion, parse_semantic_version, is_newer, trim_v, after, split_onto, is_digits, atoi,
  valid_identifier_list,
}
use pwdtt.Update.Order.{is_newer_strict}

abbrev release : Text
release = codes "v1.10.0"

abbrev candidate : Text
candidate = codes "1.10.0-rc.2+build"

abbrev the_candidate : SemanticVersion
the_candidate = record {
  major = 1;
  minor = 10;
  patch = 0;
  pre =
      record { value = codes "rc"; numeric = false; number = 0 }
      ∷ record { value = codes "2"; numeric = true; number = 2 }
      ∷ [];
}

reads_candidate : parse_semantic_version candidate ≡ some the_candidate
unfolding parse_semantic_version ◌≗◌ trim_v trim_space after valid_identifier_list split_onto
    all_chars before atoi
reads_candidate = refl

release_newer : is_newer release candidate ≡ true
unfolding is_newer ◌≗◌ trim_v trim_space after split_onto is_digits all_chars atoi
    valid_identifier_list before
release_newer = refl

is_newer_strict_example :
    (is_newer candidate release ≡ false)
    × ((c : Text) → (is_newer candidate c && not (is_newer release c)) ≡ false)
    × (v : SemanticVersion) × (w : SemanticVersion) × (parse_semantic_version release ≡ some v)
    × (parse_semantic_version candidate ≡ some w)
is_newer_strict_example = is_newer_strict release candidate release_newer
