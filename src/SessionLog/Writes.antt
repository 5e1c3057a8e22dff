-- ===== src/SessionLog/Writes.antt =====
-- A write keeps the journal, whatever the disk does.
use pwdtt.Prelude.{
  ◌+◌, ◌≤◌, ◌<◌, ◌%◌, true, false, ◌&&◌, Bool-cases, Option-cases, List, [], ◌∷◌, ◌++◌, none, some,
  ok, err, ◌≡◌, inl, inr, refl, ap, ◌∙◌, arith, ltb, take, ◌==◌,
}
use pwdtt.Prelude.Text.{Text, byte_len}
use pwdtt.SessionLog.{
  LogFile, Disk, file_limit, warn, remember, write_file, write, write_failed, sync_failed,
  closed_write, at_limit, unavailable, file_closed,
}
use pwdtt.SessionLog.Journal.{
  IsJournal, warn-IsWarned, held, held_rest, unwritten, faulty, written, take_all,
}

module _ (all : List Text) (lf : LogFile) (line : Text) (h : IsJournal all lf) (disk : Disk)
    (c : Text) (at_file : lf.file ≡ some c) (fits : lf.size + byte_len line ≤ file_limit) where
  abbrev lf₁ : LogFile
  lf₁ = held all lf line h

  abbrev arrived : Text
  arrived = take disk.taken line

  abbrev partial : LogFile
  partial = record lf₁ { file = some (c ++ arrived) }

  abbrev wrote : LogFile
  wrote = record partial { size = lf₁.size + byte_len arrived; lines = lf₁.lines + 1 }

  -- A write that fails or is cut short.
  partial-IsJournal :
      IsJournal (all ++ line ∷ []) (record (warn write_failed partial) { disk_fault = true })
  unfolding remember
  partial-IsJournal =
      let w = warn-IsWarned write_failed partial in
      faulty all lf line h _ w.ring_is w.bytes_is (omega (arith, w.size_same, h.bounded)) refl

  write_file-IsJournal : IsJournal (all ++ line ∷ []) (write_file disk line c lf₁).1
  unfolding write_file remember
  write_file-IsJournal = elim (Bool-cases disk.fails) [
    | inl failing ↦ rw failing partial-IsJournal
    | inr working ↦ elim (Bool-cases (byte_len arrived == byte_len line)) [
      | inr cut ↦ rw (working, cut) partial-IsJournal
      | inl whole ↦
          let n : byte_len arrived ≡ byte_len line = ground arith in
          elim (Bool-cases (wrote.lines % 50 == 0 && disk.sync_fails)) [
            | inl lost ↦
                let w = warn-IsWarned sync_failed wrote in
                rw (working, whole, lost)
                  (faulty all lf line h _ w.ring_is w.bytes_is (omega (arith, w.size_same, n, fits))
                    refl)
            | inr fine ↦
                rw (working, whole, fine)
                  (written all lf line h c wrote at_file refl refl fits (ap (◌+◌ lf.size) n)
                    (ap (λ t. some (c ++ t)) (take_all disk.taken line n)) refl refl)
          ]
    ]
  ]

-- The branches of `Write`.
module _ (disk : Disk) (line : Text) (lf : LogFile) where
  abbrev kept : LogFile
  kept = remember line lf

  write_nowhere : lf.file ≡ none → write disk line lf ≡ (err unavailable, kept)
  unfolding write remember
  write_nowhere at = ground arith

  module _ (c : Text) (at : lf.file ≡ some c) where
    write_closed :
        lf.closed ≡ true
        → write disk line lf
          ≡ (err file_closed, record (warn closed_write kept) { disk_fault = true })
    unfolding write remember
    write_closed closed = ground arith

    write_full : lf.closed ≡ false → lf.truncated ≡ true → write disk line lf ≡ (ok tt, kept)
    unfolding write remember
    write_full opened full = ground arith

    write_over :
        lf.closed ≡ false
        → lf.truncated ≡ false
        → file_limit < lf.size + byte_len line
        → write disk line lf ≡ (ok tt, warn at_limit (record kept { truncated = true }))
    unfolding write remember
    write_over opened room over = ground arith

    write_fits :
        lf.closed ≡ false
        → lf.truncated ≡ false
        → lf.size + byte_len line ≤ file_limit
        → write disk line lf ≡ write_file disk line c kept
    unfolding write remember
    write_fits opened room fits = ground arith

pub write-IsJournal :
    (all : List Text) (lf : LogFile) (line : Text) (disk : Disk)
    → IsJournal all lf
    → IsJournal (all ++ line ∷ []) (write disk line lf).1
write-IsJournal all lf line disk h =
    let lf₁ = remember line lf in
    let (size_is, file_is, fault_is, truncated_is, closed_is) = held_rest all lf line h in
    elim (Option-cases lf.file) [
      | inl nowhere ↦
          rw (write_nowhere disk line lf nowhere)
            (unwritten all lf line h lf₁ refl refl size_is file_is fault_is (inl nowhere))
      | inr (c, at) ↦ elim (Bool-cases lf.closed) [
        | inl closed ↦
            let w = warn-IsWarned closed_write lf₁ in
            rw (write_closed disk line lf c at closed) (
              faulty all lf line h _ w.ring_is w.bytes_is
                (omega (arith, w.size_same, size_is, h.bounded)) refl)
        | inr opened ↦ elim (Bool-cases lf.truncated) [
          | inl full ↦ rw (write_full disk line lf c at opened full) (
              unwritten all lf line h lf₁ refl refl size_is file_is fault_is
                (inr (truncated_is ∙ full)))
          | inr room ↦ elim (Bool-cases (ltb file_limit (lf.size + byte_len line))) [
            | inl over ↦
                let w = warn-IsWarned at_limit (record lf₁ { truncated = true }) in
                rw (write_over disk line lf c at opened room (ground arith)) (
                  unwritten all lf line h _ w.ring_is w.bytes_is (w.size_same ∙ size_is)
                    (w.file_is ∙ file_is) (w.fault_is ∙ fault_is) (inr w.truncated_is))
            | inr fits ↦
                let n : lf.size + byte_len line ≤ file_limit = ground arith in
                rw (write_fits disk line lf c at opened room n)
                  (write_file-IsJournal all lf line h disk c at n)
          ]
        ]
      ]
    ]
