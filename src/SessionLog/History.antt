-- ===== src/SessionLog/History.antt =====
-- Journals under any sequence of operations, and what an export of one shows.
use pwdtt.Prelude.{
  ◌≤◌, Bool, true, false, not, ◌&&◌, ◌||◌, Bool-cases, Option-cases, List, [], ◌∷◌, ◌++◌, none,
  some, ◌≡◌, ◌⊎◌, inl, inr, refl, ap, arith, if◌then◌else◌,
}
use pwdtt.Prelude.Text.{Text, byte_len}
use pwdtt.SessionLog.{
  LogFile, Disk, Warning, Snapshot, open_log_file, warn, write, close, snapshot, from_ring, join,
  is_empty,
}
use pwdtt.SessionLog.Ring.{IsRecent}
use pwdtt.SessionLog.Journal.{
  IsJournal, content, same-IsJournal, faulty-IsJournal, open_log_file-IsJournal,
}
use pwdtt.SessionLog.Writes.{write-IsJournal}
use mathlib.Core.List.{append-nil, append_assoc}

-- What closing and exporting leave as it is.
record IsQuiet (lf lf' : LogFile) : Type 0 where
  pub ring_is : lf'.ring ≡ lf.ring
  pub bytes_is : lf'.ring_bytes ≡ lf.ring_bytes
  pub size_is : lf'.size ≡ lf.size
  pub file_is : lf'.file ≡ lf.file
  pub truncated_is : lf'.truncated ≡ lf.truncated
  pub fault_is : (lf'.disk_fault ≡ true) ⊎ (lf'.disk_fault ≡ lf.disk_fault)

IsQuiet-IsJournal :
    (all : List Text) (lf lf' : LogFile) → IsJournal all lf → IsQuiet lf lf' → IsJournal all lf'
IsQuiet-IsJournal all lf lf' h q = elim q.fault_is [
  | inl fault ↦
      faulty-IsJournal all lf lf' h q.ring_is q.bytes_is (omega (arith, q.size_is, h.bounded)) fault
  | inr same ↦
      same-IsJournal all lf lf' h q.ring_is q.bytes_is q.size_is q.file_is same (inr q.truncated_is)
]

close-IsQuiet :
    (sync_fails close_fails : Bool) (lf : LogFile) → IsQuiet lf (close sync_fails close_fails lf).1
unfolding close warn
close-IsQuiet sync_fails close_fails lf = record {
  ring_is = ground arith;
  bytes_is = ground arith;
  size_is = ground arith;
  file_is = ground arith;
  truncated_is = ground arith;
  fault_is = ground arith;
}

snapshot-IsQuiet :
    (sanitize : Text → Text) (sync_fails read_fails : Bool) (lf : LogFile)
    → IsQuiet lf (snapshot sanitize sync_fails read_fails lf).1
unfolding snapshot warn
snapshot-IsQuiet sanitize sync_fails read_fails lf = record {
  ring_is = ground arith;
  bytes_is = ground arith;
  size_is = ground arith;
  file_is = ground arith;
  truncated_is = ground arith;
  fault_is = ground arith;
}

-- An operation on a journal, with what the file system does.
pub data Step : Type 0 where
  writes : Disk → Text → Step
  closes : Bool → Bool → Step
  exports : Bool → Bool → Step

unfoldable pub step : (Text → Text) → Step → LogFile → LogFile
step sanitize (writes disk line) lf = (write disk line lf).1
step sanitize (closes sync_fails close_fails) lf = (close sync_fails close_fails lf).1
step sanitize (exports sync_fails read_fails) lf = (snapshot sanitize sync_fails read_fails lf).1

abbrev line_of : Step → List Text
line_of (writes disk line) = line ∷ []
line_of _ = []

unfoldable pub run : (Text → Text) → List Step → LogFile → LogFile
unfolding step
run sanitize [] lf = lf
run sanitize (s ∷ steps) lf = run sanitize steps (step sanitize s lf)

unfoldable pub lines_of : List Step → List Text
lines_of [] = []
lines_of (s ∷ steps) = line_of s ++ lines_of steps

step-IsJournal :
    (sanitize : Text → Text) (s : Step) (all : List Text) (lf : LogFile)
    → IsJournal all lf
    → IsJournal (all ++ line_of s) (step sanitize s lf)
unfolding step
step-IsJournal sanitize (writes disk line) all lf h = write-IsJournal all lf line disk h
step-IsJournal sanitize (closes p q) all lf h =
    rw (append-nil all) (IsQuiet-IsJournal all lf _ h (close-IsQuiet p q lf))
step-IsJournal sanitize (exports p q) all lf h =
    rw (append-nil all) (IsQuiet-IsJournal all lf _ h (snapshot-IsQuiet sanitize p q lf))

run-IsJournal :
    (sanitize : Text → Text) (steps : List Step) (all : List Text) (lf : LogFile)
    → IsJournal all lf
    → IsJournal (all ++ lines_of steps) (run sanitize steps lf)
unfolding run lines_of
run-IsJournal sanitize [] all lf h = rw (append-nil all) h
run-IsJournal sanitize (s ∷ steps) all lf h = rw (← append_assoc all (line_of s) (lines_of steps)) (
    run-IsJournal sanitize steps (all ++ line_of s) (step sanitize s lf)
      (step-IsJournal sanitize s all lf h))

-- Why an export does not show the file.
abbrev Unusable : Bool → LogFile → Type 0
Unusable read_fails lf =
    (lf.file ≡ none)
    ⊎ (lf.truncated ≡ true)
    ⊎ (lf.disk_fault ≡ true)
    ⊎ (read_fails ≡ true)
    ⊎ (content lf ≡ [])

-- The lines `all` as an export shows them.
abbrev pub Shows : (Text → Text) → Bool → List Text → Snapshot × LogFile → Type 0
Shows sanitize read_fails all (s, lf) =
    ((s.content ≡ sanitize (join all)) × (s.fallback ≡ false))
    ⊎ ((kept : List Text) × IsRecent all kept × (s.content ≡ join kept) × Unusable read_fails lf)

empty_is : (t : Text) → is_empty t ≡ true → t ≡ []
empty_is [] h = refl
empty_is (c ∷ t) h = absurd (ground arith)

snapshot-Shows :
    (sanitize : Text → Text) (sync_fails read_fails : Bool) (all : List Text) (lf : LogFile)
    → IsJournal all lf
    → Shows sanitize read_fails all (snapshot sanitize sync_fails read_fails lf)
unfolding snapshot from_ring warn
snapshot-Shows sanitize sync_fails read_fails all lf h = elim (Option-cases lf.file) [
  | inl nowhere ↦ inr (lf.ring, h.recent, ground arith, inl (ground arith))
  | inr (c, at) ↦ elim (Bool-cases (lf.truncated || lf.disk_fault || not lf.closed && sync_fails)) [
    | inl bad ↦ inr (lf.ring, h.recent, ground arith, ground arith)
    | inr good ↦ elim (Bool-cases read_fails) [
      | inl unread ↦ inr (lf.ring, h.recent, ground arith, ground arith)
      | inr read ↦ elim (Bool-cases (is_empty c)) [
        | inl bare ↦ inr (lf.ring, h.recent, ground arith, ground (arith, empty_is c))
        | inr filled ↦
            let all_there : c ≡ join all = elim h.complete [
              | inl e ↦ absurd (ground arith)
              | inr (inl e) ↦ absurd (ground arith)
              | inr (inr (inl e)) ↦ absurd (ground arith)
              | inr (inr (inr e)) ↦ ground arith
            ] in
            inl (ground (arith, ap sanitize all_there), ground arith)
      ]
    ]
  ]
]

-- Whatever the disk does, after any writes, exports and closings of a journal that was opened over
-- an empty file or over none: its ring holds the longest recent part of the lines that fits into
-- 128 KiB; the size that it counts is at most 512 KiB, and so is the file, unless a disk operation
-- has failed, whose bytes are not counted; and an export shows all lines, sanitized, or exactly
-- the ring, the latter only when there is no file, the file is empty, full or unreadable, or the
-- disk failed.
pub snapshot-run :
    (sanitize : Text → Text) (steps : List Step) (has_file : Bool) (ws : List Warning)
    (sync_fails read_fails : Bool)
    → let lf = run sanitize steps (open_log_file (if has_file then some [] else none) ws) in
      IsRecent (lines_of steps) lf.ring
      × (lf.size ≤ 524288)
      × ((lf.disk_fault ≡ true) ⊎ (byte_len (content lf) ≤ 524288))
      × Shows sanitize read_fails (lines_of steps) (snapshot sanitize sync_fails read_fails lf)
snapshot-run sanitize steps has_file ws sync_fails read_fails =
    let start = open_log_file (if has_file then some [] else none) ws in
    let j = run-IsJournal sanitize steps [] start (open_log_file-IsJournal has_file ws) in
    let start_run = run sanitize steps start in
    let small : (start_run.disk_fault ≡ true) ⊎ (byte_len (content start_run) ≤ 524288) =
      elim j.size_is [
        | inl fault ↦ inl fault
        | inr right ↦ inr (omega (arith, right, j.bounded))
      ] in
    (j.recent, j.bounded, small, snapshot-Shows sanitize sync_fails read_fails (lines_of steps) _ j)
