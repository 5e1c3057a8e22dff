-- ===== src/Tests/Journals.antt =====
-- Runs for backend/session_log.go.
use pwdtt.Prelude.{
  ◌<◌, ℕ, map, true, ◌⊎◌, length, ◌+◌, ◌≤◌, true, false, List, [], ◌∷◌, ◌++◌, some, ◌≡◌, ◌⊎◌,
}
use pwdtt.Prelude.Text.{codes}
use pwdtt.SessionLog.{Disk, LogFile, open_log_file, snapshot}
use pwdtt.SessionLog.Ring.{IsRecent}
use mathlib.Core.List.{Perm}
use pwdtt.SessionLog.Prune.{
  RetainedLog, prune_session_logs, IsSorted, spared, prune_session_logs_lem,
}
use pwdtt.SessionLog.Journal.{content}
use pwdtt.Prelude.Text.{byte_len}
use pwdtt.SessionLog.History.{Step, writes, closes, exports, run, lines_of, Shows, snapshot-run}

abbrev good : Disk
good = record { taken = 9999; fails = false; sync_fails = false }

abbrev cut_short : Disk
cut_short = record { taken = 1; fails = false; sync_fails = false }

abbrev a_session : List Step
a_session =
    writes good (codes "one")
    ∷ exports false false
    ∷ writes cut_short (codes "two")
    ∷ closes false true
    ∷ []

abbrev after_session : LogFile
after_session = run (λ t. t) a_session (open_log_file (some []) [])

snapshot-run_example :
    IsRecent (lines_of a_session) after_session.ring
    × (after_session.size ≤ 524288)
    × ((after_session.disk_fault ≡ true) ⊎ (byte_len (content after_session) ≤ 524288))
    × Shows (λ t. t) false (lines_of a_session) (snapshot (λ t. t) false false after_session)
snapshot-run_example = snapshot-run (λ t. t) a_session true [] false false

abbrev old_log : ℕ → RetainedLog
old_log n = record { name = n ∷ []; time = n }

-- Twelve journals.
abbrev old_logs : List RetainedLog
old_logs = map old_log (2 ∷ 1 ∷ 3 ∷ 12 ∷ 4 ∷ 5 ∷ 6 ∷ 7 ∷ 8 ∷ 9 ∷ 11 ∷ 10 ∷ [])

prune_session_logs_lem_example :
    let left = (prune_session_logs (λ t. false) (1 ∷ []) old_logs).0 in
    (front : List RetainedLog) × (rest : List RetainedLog) × Perm (front ++ rest) old_logs
    × IsSorted (front ++ rest)
    × (left ≡ spared (λ t. false) (1 ∷ []) front ++ rest)
    × ((length left + 2 ≡ 12) ⊎ ((rest ≡ []) × (12 < length left + 2)))
prune_session_logs_lem_example = prune_session_logs_lem (λ t. false) (1 ∷ []) old_logs
