-- ===== src/SessionLog/Ring.antt =====
-- The ring of a journal: the most recent lines that fit.
use mathlib.Core.List.{append-nil, append_assoc}
use pwdtt.Prelude.{
  ℕ, ◌+◌, ◌-◌, ◌≤◌, ◌<◌, Bool-cases, List, [], ◌∷◌, ◌++◌, ◌≡◌, ◌⊎◌, inl, inr, refl, sym, ap, ◌∙◌,
  arith, ltb,
}
use pwdtt.Prelude.Text.{Text, byte_len}
use pwdtt.SessionLog.{memory_limit, shrink}

pub byte_len-append : (a b : Text) → byte_len (a ++ b) ≡ byte_len a + byte_len b
unfolding byte_len
byte_len-append [] b = omega arith
byte_len-append (c ∷ a) b = ground (arith, byte_len-append a b)

unfoldable pub total : List Text → ℕ
total [] = 0
total (l ∷ ls) = byte_len l + total ls

pub total-append : (a b : List Text) → total (a ++ b) ≡ total a + total b
unfolding total
total-append [] b = omega arith
total-append (l ∷ a) b = omega (arith, total-append a b)

-- Why no more lines are kept: there are no others, or the next one would not fit.
abbrev Stops : List Text → List Text → Type 0
Stops dropped kept =
    (dropped ≡ [])
    ⊎ ((ds : List Text) × (d : Text) × (dropped ≡ ds ++ d ∷ [])
        × (memory_limit < byte_len d + total kept))

-- The longest recent part of the lines that fits into memory.
pub record IsRecent (all kept : List Text) : Type 0 where
  pub dropped : List Text
  pub split : dropped ++ kept ≡ all
  pub fits : total kept ≤ memory_limit
  pub longest : Stops dropped kept

-- Taking one more line away for lack of room.
Stops-drop :
    (ds kept : List Text) (l : Text)
    → memory_limit < byte_len l + total (ds ++ kept)
    → Stops ds kept
    → Stops (l ∷ ds) kept
Stops-drop ds kept l h (inl none_left) =
    let all : ds ++ kept ≡ kept = rw none_left refl in
    inr ([], l, ap (◌∷◌ l) none_left, ground (arith, all))
Stops-drop ds kept l h (inr (es, d, e, n)) = inr (l ∷ es, d, ap (◌∷◌ l) e, n)

-- With the right count of bytes, the loop keeps the longest recent part, and its count.
pub shrink-IsRecent :
    (bytes : ℕ) (ring : List Text)
    → bytes ≡ total ring
    → IsRecent ring (shrink bytes ring).1 × ((shrink bytes ring).0 ≡ total (shrink bytes ring).1)
unfolding shrink total
shrink-IsRecent bytes [] h =
    (record { dropped = []; split = refl; fits = omega arith; longest = inl refl }, h)
shrink-IsRecent bytes (l ∷ ring) h = elim (Bool-cases (ltb memory_limit bytes)) [
  | inr fits ↦
      rw fits (record { dropped = []; split = refl; fits = ground arith; longest = inl refl }, h)
  | inl over ↦
      let (rest, count) = shrink-IsRecent (bytes - byte_len l) ring (omega arith) in
      let kept = (shrink (bytes - byte_len l) ring).1 in
      rw over (
        record {
          dropped = l ∷ rest.dropped;
          split = ap (◌∷◌ l) rest.split;
          fits = rest.fits;
          longest =
              Stops-drop rest.dropped kept l (ground (arith, ap total rest.split)) rest.longest;
        },
        count,
      )
]

-- What a further line leaves of the lines so far.
pub IsRecent-append :
    (all kept kept' : List Text) (line : Text)
    → IsRecent all kept
    → IsRecent (kept ++ line ∷ []) kept'
    → IsRecent (all ++ line ∷ []) kept'
IsRecent-append all kept kept' line p q = record {
  dropped = p.dropped ++ q.dropped;
  split =
      append_assoc p.dropped q.dropped kept'
      ∙ ap (◌++◌ p.dropped) q.split
      ∙ sym (append_assoc p.dropped kept (line ∷ []))
      ∙ ap (λ t. t ++ line ∷ []) p.split;
  fits = q.fits;
  longest = both p.longest q.longest;
}
  where
    both : Stops p.dropped kept → Stops q.dropped kept' → Stops (p.dropped ++ q.dropped) kept'
    both s (inr (es, d, e, n)) =
        inr
          (p.dropped ++ es, d, ap (◌++◌ p.dropped) e ∙ sym (append_assoc p.dropped es (d ∷ [])), n)
    both (inl all_kept) (inl none_dropped) = inl (rw (all_kept, none_dropped) refl)
    both (inr (es, d, e, n)) (inl none_dropped) =
        let same : kept' ≡ kept ++ line ∷ [] = rw none_dropped at q.split in
        inr (
          es,
          d,
          rw (none_dropped, append-nil p.dropped) e,
          omega (arith, n, ap total same, total-append kept (line ∷ [])),
        )
