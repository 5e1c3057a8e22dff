-- ===== src/SessionLog.antt =====
-- backend/session_log.go: the journal of one connection, in a file of at most 512 KiB and in a ring
-- of the last 128 KiB. A line is its characters, and its length is that of its UTF-8 encoding. What
-- the file system does is an argument of each operation; a write that is cut short is cut between
-- characters. `sanitizeDiagnosticText` is an argument (`sanitize`).
pub mod Ring
pub mod Journal
pub mod Lines
pub mod Prune
pub mod Writes
pub mod History
use pwdtt.Prelude.{
  ℕ, zero, suc, ◌+◌, ◌-◌, ◌%◌, Bool, true, false, not, ◌&&◌, ◌||◌, List, [], ◌∷◌, ◌++◌, Option,
  none, some, Result, ok, err, ltb, ◌==◌, if◌then◌else◌, take,
}
use pwdtt.Prelude.Text.{Text, codes, byte_len}

abbrev pub file_limit : ℕ
file_limit = 524288

abbrev pub memory_limit : ℕ
memory_limit = 131072

abbrev pub line_limit : ℕ
line_limit = 4096

-- The warnings, by what they say.
pub data Warning : Type 0 where
  no_directory no_file prune_failed closed_write at_limit write_failed sync_failed : Warning
  close_sync_failed close_failed export_sync_failed read_failed file_empty : Warning

pub data LogError : Type 0 where
  unavailable file_closed io_failed short_write not_synced not_closed : LogError

pub record LogFile : Type 0 where
  pub file : Option Text  -- the content of the file, if there is one
  pub size : ℕ
  pub lines : ℕ
  pub ring : List Text
  pub ring_bytes : ℕ
  warnings : List Warning
  pub closed : Bool
  pub truncated : Bool
  pub disk_fault : Bool

-- What `OpenLogFile` starts from when it has a file, and when it has none.
unfoldable pub open_log_file : Option Text → List Warning → LogFile
open_log_file file warnings = record {
  file = file;
  size = 0;
  lines = 0;
  ring = [];
  ring_bytes = 0;
  warnings = warnings;
  closed = false;
  truncated = false;
  disk_fault = false;
}

abbrev pub number : Warning → ℕ
number no_directory = 0
number no_file = 1
number prune_failed = 2
number closed_write = 3
number at_limit = 4
number write_failed = 5
number sync_failed = 6
number close_sync_failed = 7
number close_failed = 8
number export_sync_failed = 9
number read_failed = 10
number file_empty = 11

unfoldable has_warning : Warning → List Warning → Bool
has_warning w [] = false
has_warning w (v ∷ vs) = number v == number w || has_warning w vs

-- `warnLocked`
unfoldable pub warn : Warning → LogFile → LogFile
unfolding has_warning
warn w lf = if has_warning w lf.warnings then lf else record lf { warnings = lf.warnings ++ w ∷ [] }

-- The cut of `boundedLogLine`: characters are kept while they fit, `size` bytes are behind.
unfoldable pub cut_line : ℕ → Text → Text
cut_line size [] = []
cut_line size (c ∷ s) =
    let rest = cut_line (size + byte_len (c ∷ [])) s in
    if ltb (line_limit - 16) (size + byte_len (c ∷ [])) then codes " [truncated]" else c ∷ rest

-- `boundedLogLine` from the formatted line on.
unfoldable pub bounded_line : Text → Text
unfolding cut_line
bounded_line line =
    (if ltb (line_limit - 16) (byte_len line) then cut_line 0 line else line) ++ 10 ∷ []

-- `for lf.ringBytes > sessionLogMemoryLimit`; the source would panic on an empty ring.
unfoldable pub shrink : ℕ → List Text → ℕ × List Text
shrink bytes [] = (bytes, [])
shrink bytes (l ∷ ring) =
    let rest = shrink (bytes - byte_len l) ring in
    if ltb memory_limit bytes then rest else (bytes, l ∷ ring)

-- What the disk does with a write: the characters that arrive, an error, an error of the sync.
pub record Disk : Type 0 where
  pub taken : ℕ
  pub fails : Bool
  pub sync_fails : Bool

-- The line enters the ring.
unfoldable pub remember : Text → LogFile → LogFile
unfolding shrink
remember line lf =
    let (bytes, ring) = shrink (lf.ring_bytes + byte_len line) (lf.ring ++ line ∷ []) in
    record lf { ring_bytes = bytes; ring = ring }

-- The part of `Write` that reaches the file, whose content is `content`.
unfoldable pub write_file : Disk → Text → Text → LogFile → Result LogError (Unit {0}) × LogFile
unfolding warn
write_file disk line content lf =
    let arrived = take disk.taken line in
    let lf' = record lf { file = some (content ++ arrived) } in
    let wrote = record lf' { size = lf.size + byte_len arrived; lines = lf.lines + 1 } in
    if disk.fails
    then (err io_failed, record (warn write_failed lf') { disk_fault = true })
    else if not (byte_len arrived == byte_len line)
    then (err short_write, record (warn write_failed lf') { disk_fault = true })
    else if wrote.lines % 50 == 0 && disk.sync_fails
    then (err not_synced, record (warn sync_failed wrote) { disk_fault = true })
    else (ok tt, wrote)

-- `Write` of a line that `boundedLogLine` made.
unfoldable pub write : Disk → Text → LogFile → Result LogError (Unit {0}) × LogFile
unfolding remember write_file
write disk line lf₀ =
    let lf = remember line lf₀ in
    elim lf.file [
      | none ↦ (err unavailable, lf)
      | some content ↦
          if lf.closed
          then (err file_closed, record (warn closed_write lf) { disk_fault = true })
          else if lf.truncated
          then (ok tt, lf)
          else if ltb file_limit (lf.size + byte_len line)
          then (ok tt, warn at_limit (record lf { truncated = true }))
          else write_file disk line content lf
    ]

-- `Close`: whether its sync and its close fail.
unfoldable pub close : Bool → Bool → LogFile → Result LogError (Unit {0}) × LogFile
unfolding warn
close sync_fails close_fails lf₀ =
    let lf = record lf₀ { closed = true } in
    let synced =
      if sync_fails then record (warn close_sync_failed lf) { disk_fault = true } else lf in
    let done =
      if close_fails then record (warn close_failed synced) { disk_fault = true } else synced in
    if lf₀.closed then (ok tt, lf₀) else elim lf.file [
      | none ↦ (ok tt, lf)
      | some content ↦ (
        (if sync_fails then err not_synced else if close_fails then err not_closed else ok tt),
        done,
      )
    ]

pub record Snapshot : Type 0 where
  pub content : Text
  warnings : List Warning
  pub fallback : Bool

unfoldable pub join : List Text → Text
join [] = []
join (l ∷ ls) = l ++ join ls

abbrev pub is_empty {ℓ} : {A : Type ℓ} → List A → Bool
is_empty [] = true
is_empty (_ ∷ _) = false

-- The snapshot from the ring, when the file is not used.
unfoldable pub from_ring : LogFile → Snapshot
unfolding join
from_ring lf =
    let content = join lf.ring in
    let fallback = not (is_empty content) in
    let has_file : Bool = elim lf.file [ none ↦ false | some c ↦ true ] in
    record {
      content = content;
      warnings =
          if fallback && has_file && not lf.truncated && is_empty lf.warnings
          then lf.warnings ++ file_empty ∷ []
          else lf.warnings;
      fallback = fallback;
    }

-- `Snapshot`: whether its sync and its read fail.
unfoldable pub snapshot : (Text → Text) → Bool → Bool → LogFile → Snapshot × LogFile
unfolding from_ring warn
snapshot sanitize sync_fails read_fails lf₀ =
    let faulty = record (warn export_sync_failed lf₀) { disk_fault = true } in
    elim lf₀.file [
      | none ↦ (from_ring lf₀, lf₀)
      | some content ↦
          let lf = if not lf₀.closed && sync_fails then faulty else lf₀ in
          if lf.truncated || lf.disk_fault
          then (from_ring lf, lf)
          else if read_fails
          then (from_ring (warn read_failed lf), warn read_failed lf)
          else if is_empty content
          then (from_ring lf, lf)
          else (record { content = sanitize content; warnings = lf.warnings; fallback = false }, lf)
    ]
