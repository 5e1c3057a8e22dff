-- ===== src/Core/Events.antt =====
-- core/main.go: which log lines become which events (`logWriter`), and the MTU line.
use pwdtt.Prelude.{
  ℕ, zero, suc, ◌+◌, ◌-◌, Bool, true, false, not, ◌&&◌, Bool-cases, List, [], ◌∷◌, Option, none,
  some, map, length, leb, ◌==◌, ◌≡◌, ◌⊎◌, inl, inr, refl, arith, if◌then◌else◌,
}
use mathlib.Core.List.{reverse}
use pwdtt.Prelude.Text.{Text, codes, ◌≗◌, has_prefix, to_lower, trim_left_by}
use pwdtt.Session.{contains_any}

-- strings.ToLower for the letters of the code's Russian words too.
unfoldable lower_char : ℕ → ℕ
lower_char c =
    if leb 0x410 c && leb c 0x42F
    then c + 32
    else if leb 0x400 c && leb c 0x40F
    then c + 80
    else to_lower c

-- strings.ReplaceAll with nothing: `skip` characters of a match are still to go.
unfoldable remove_from : Text → ℕ → Text → Text
remove_from pat skip [] = []
remove_from pat (suc skip) (c ∷ s) = remove_from pat skip s
remove_from pat zero (c ∷ s) =
    let matched = remove_from pat (length pat - 1) s in
    let rest = remove_from pat zero s in if has_prefix pat (c ∷ s) then matched else c ∷ rest

data Level : Type 0 where
  debug info warn error skip : Level

abbrev error_words : List Text
error_words = codes "fatal" ∷ codes "ошибка" ∷ codes "error" ∷ []

abbrev warn_words : List Text
warn_words = codes "warn" ∷ codes "не удалось" ∷ codes "retry" ∷ []

-- The text that the level is read from: a success's metadata do not count.
unfoldable level_text : Text → Text
level_text msg = remove_from (codes "error_kind=success") zero (map lower_char msg)

unfoldable classify_level : Text → Level
unfolding level_text
classify_level msg =
    if contains_any (level_text msg) error_words
    then error
    else if contains_any (level_text msg) warn_words
    then warn
    else info

abbrev shown_marks : List Text
shown_marks =
    codes "Ошибка кредов"
    ∷ codes "VK Auth] Failed"
    ∷ codes "КАПЧА] v2 попытка"
    ∷ codes "КАПЧА] Превышен лимит"
    ∷ codes "[READY]"
    ∷ codes "[WG]"
    ∷ codes "Туннель активен"
    ∷ codes "Туннель готов"
    ∷ codes "[STATS]"
    ∷ codes "[ЯДРО]"
    ∷ []

abbrev is_error : Level → Bool
is_error error = true
is_error _ = false

abbrev debug_level : Level → Level
debug_level info = debug
debug_level l = l

-- strings.TrimRight of ends of line.
unfoldable without_ends : Text → Text
without_ends p = reverse (trim_left_by (λ c. c == 10) (reverse p))

-- A line's event, if it is not empty.
unfoldable log_event : Bool → Text → Option (Level × Text)
unfolding classify_level
log_event debug_logging msg =
    let level = classify_level msg in
    if msg ≗ []
    then none
    else if debug_logging && not (is_error level)
    then some (debug_level level, msg)
    else if is_error level
    then some (level, msg)
    else if contains_any msg shown_marks
    then some (level, msg)
    else some (skip, msg)

unfoldable write_log : Bool → Text → Option (Level × Text)
unfolding log_event without_ends
write_log debug_logging p = log_event debug_logging (without_ends p)

abbrev is_skip : Level → Bool
is_skip skip = true
is_skip _ = false

log_event_lem :
    (debug_logging : Bool) (msg : Text)
    → (log_event debug_logging msg ≡ none) × ((msg ≗ []) ≡ true)
      ⊎ ((level : Level) × (log_event debug_logging msg ≡ some (level, msg))
          × (is_error level ≡ contains_any (level_text msg) error_words)
          × (is_skip level ≡ (
              not debug_logging
              && not (contains_any (level_text msg) error_words)
              && not (contains_any msg shown_marks))))
unfolding log_event classify_level
log_event_lem debug_logging msg = elim (Bool-cases (msg ≗ [])) [
  | inl empty ↦ inl (rw (empty, log_event) refl, empty)
  | inr line ↦ elim (Bool-cases debug_logging) [
    | inl verbose ↦ elim (Bool-cases (contains_any (level_text msg) error_words)) [
      | inl bad ↦ inr (error, ground arith, ground arith, ground arith)
      | inr fine ↦ inr (debug_level (classify_level msg), ground arith, ground arith, ground arith)
    ]
    | inr quiet ↦ elim (Bool-cases (contains_any (level_text msg) error_words)) [
      | inl bad ↦ inr (error, ground arith, ground arith, ground arith)
      | inr fine ↦ elim (Bool-cases (contains_any msg shown_marks)) [
        | inl marked ↦ inr (classify_level msg, ground arith, ground arith, ground arith)
        | inr plain ↦ inr (skip, ground arith, ground arith, ground arith)
      ]
    ]
  ]
]

-- Every line that is not empty becomes one event with its text. It is an error whenever the text,
-- leaving out `error_kind=success`, has an error word, with the verbose log or without; it is kept
-- from the screen only without the verbose log, if it is no error and has no mark.
write_log_lem :
    (debug_logging : Bool) (p : Text)
    → (write_log debug_logging p ≡ none) × ((without_ends p ≗ []) ≡ true)
      ⊎ ((level : Level) × (write_log debug_logging p ≡ some (level, without_ends p))
          × (is_error level ≡ contains_any (level_text (without_ends p)) error_words)
          × (is_skip level ≡ (
              not debug_logging
              && not (contains_any (level_text (without_ends p)) error_words)
              && not (contains_any (without_ends p) shown_marks))))
unfolding write_log
write_log_lem debug_logging p = log_event_lem debug_logging (without_ends p)
