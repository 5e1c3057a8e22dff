-- ===== src/SessionLog/Prune.antt =====
-- `pruneSessionLogs`: old journals are removed until ten are left.
use pwdtt.Prelude.{
  ℕ, suc, ◌+◌, ◌-◌, ◌<◌, Bool, true, false, ◌||◌, Bool-cases, List, [], ◌∷◌, ◌++◌, map, ◌≡◌, ◌⊎◌,
  inl, inr, refl, ap, ◌∙◌, arith, ltb, leb, ◌==◌, if◌then◌else◌, length,
}
use mathlib.Core.List.{Perm}
use mathlib.Core.List.Perm
use pwdtt.Prelude.Text.{Text, ◌≗◌, less_text}
use pwdtt.Prelude.Text.Laws.{less_text_flips}

pub record RetainedLog : Type 0 where
  pub name : Text
  pub time : ℕ

abbrev retention : ℕ
retention = 10

-- The order of the sort: by time, and by name for the same time.
unfoldable pub before_log : RetainedLog → RetainedLog → Bool
before_log a b = if a.time == b.time then less_text a.name b.name else ltb a.time b.time

unfoldable insert_log : RetainedLog → List RetainedLog → List RetainedLog
unfolding before_log
insert_log x [] = x ∷ []
insert_log x (y ∷ ys) =
    let rest = insert_log x ys in if before_log y x then y ∷ rest else x ∷ y ∷ ys

unfoldable pub sort_logs : List RetainedLog → List RetainedLog
unfolding insert_log
sort_logs [] = []
sort_logs (x ∷ xs) = insert_log x (sort_logs xs)

-- The loop with `excess` files to remove; `fails` says which removals fail. What is left, and
-- whether there was an error.
unfoldable remove_oldest : (Text → Bool) → Text → ℕ → List RetainedLog → List RetainedLog × Bool
remove_oldest fails active excess [] = ([], false)
remove_oldest fails active excess (oldest ∷ logs) =
    let same = remove_oldest fails active excess logs in
    let fewer = remove_oldest fails active (excess - 1) logs in
    if leb excess 0
    then (oldest ∷ logs, false)
    else if oldest.name ≗ active
    then (oldest ∷ same.0, same.1)
    else if fails oldest.name
    then (oldest ∷ same.0, true)
    else fewer

unfoldable pub prune_session_logs :
    (Text → Bool) → Text → List RetainedLog → List RetainedLog × Bool
unfolding remove_oldest sort_logs
prune_session_logs fails active logs =
    remove_oldest fails active (length logs - retention) (sort_logs logs)

abbrev pub names : List RetainedLog → List Text
names logs = map (λ l. l.name) logs

-- Each log is not after the next one.
abbrev pub IsSorted : List RetainedLog → Type 0
IsSorted [] = Unit
IsSorted (x ∷ []) = Unit
IsSorted (x ∷ y ∷ ys) = (before_log y x ≡ false) × IsSorted (y ∷ ys)

before_log_asym : (a b : RetainedLog) → before_log a b ≡ true → before_log b a ≡ false
unfolding before_log
before_log_asym a b h = ground (arith, less_text_flips a.name b.name)

insert_log-IsSorted :
    (x : RetainedLog) (ys : List RetainedLog) → IsSorted ys → IsSorted (insert_log x ys)
unfolding insert_log
insert_log-IsSorted x [] h = tt
insert_log-IsSorted x (y ∷ []) h = elim (Bool-cases (before_log y x)) [
  | inl later ↦ rw later (before_log_asym y x later, tt)
  | inr first ↦ rw first (first, tt)
]
insert_log-IsSorted x (y ∷ z ∷ zs) (h, hs) = elim (Bool-cases (before_log y x)) [
  | inr first ↦ rw first (first, (h, hs))
  | inl later ↦ elim (Bool-cases (before_log z x)) [
    | inr next ↦ rw (later, next) (before_log_asym y x later, (next, hs))
    | inl still ↦
        let rest = rw still at (insert_log-IsSorted x (z ∷ zs) hs) in rw (later, still) (h, rest)
  ]
]

sort_logs-IsSorted : (logs : List RetainedLog) → IsSorted (sort_logs logs)
unfolding sort_logs
sort_logs-IsSorted [] = tt
sort_logs-IsSorted (x ∷ xs) = insert_log-IsSorted x (sort_logs xs) (sort_logs-IsSorted xs)

insert_log_perm : (x : RetainedLog) (ys : List RetainedLog) → Perm (insert_log x ys) (x ∷ ys)
unfolding insert_log
insert_log_perm x [] = Perm.rfl
insert_log_perm x (y ∷ ys) = elim (Bool-cases (before_log y x)) [
  | inl later ↦ rw later (Perm.trans (Perm.cons y (insert_log_perm x ys)) (Perm.swap x y ys))
  | inr here ↦ rw here Perm.rfl
]

sort_logs_perm : (logs : List RetainedLog) → Perm (sort_logs logs) logs
unfolding sort_logs
sort_logs_perm [] = Perm.nil
sort_logs_perm (x ∷ xs) =
    Perm.trans (insert_log_perm x (sort_logs xs)) (Perm.cons x (sort_logs_perm xs))

length-insert_log :
    (x : RetainedLog) (ys : List RetainedLog) → length (insert_log x ys) ≡ suc (length ys)
unfolding insert_log
length-insert_log x [] = refl
length-insert_log x (y ∷ ys) = ground (arith, length-insert_log x ys)

length-sort_logs : (logs : List RetainedLog) → length (sort_logs logs) ≡ length logs
unfolding sort_logs
length-sort_logs [] = refl
length-sort_logs (x ∷ xs) = length-insert_log x (sort_logs xs) ∙ ap suc (length-sort_logs xs)

-- The logs that a walk over the oldest ones passes over.
unfoldable pub spared : (Text → Bool) → Text → List RetainedLog → List RetainedLog
spared fails active [] = []
spared fails active (l ∷ logs) =
    let rest = spared fails active logs in
    if l.name ≗ active || fails l.name then l ∷ rest else rest

-- The removal takes everything but the spared logs from a front part.
record Removed (fails : Text → Bool) (active : Text) (excess : ℕ) (logs left : List RetainedLog)
    : Type 0 where
  front : List RetainedLog
  rest : List RetainedLog
  split : logs ≡ front ++ rest
  left_is : left ≡ spared fails active front ++ rest
  enough :
      (length left + excess ≡ length logs) ⊎ ((rest ≡ []) × (length logs < length left + excess))

remove_oldest-Removed :
    (fails : Text → Bool) (active : Text) (excess : ℕ) (logs : List RetainedLog)
    → Removed fails active excess logs (remove_oldest fails active excess logs).0
unfolding remove_oldest spared
remove_oldest-Removed fails active excess [] = record {
  front = [];
  rest = [];
  split = refl;
  left_is = refl;
  enough = elim (Bool-cases (leb excess 0)) [
    | inl none_over ↦ inl (ground arith)
    | inr over ↦ inr (refl, ground arith)
  ];
}
remove_oldest-Removed fails active excess (l ∷ logs) = elim (Bool-cases (leb excess 0)) [
  | inl done ↦ rw done (record {
    front = [];
    rest = l ∷ logs;
    split = refl;
    left_is = refl;
    enough = inl (ground arith);
  })
  | inr more ↦ elim (Bool-cases (l.name ≗ active || fails l.name)) [
    | inl spare ↦
        let r = remove_oldest-Removed fails active excess logs in
        let this : (remove_oldest fails active excess (l ∷ logs)).0
            ≡ l ∷ (remove_oldest fails active excess logs).0 =
          ground arith in
        rw this (record {
          front = l ∷ r.front;
          rest = r.rest;
          split = ap (◌∷◌ l) r.split;
          left_is = rw spare (ap (◌∷◌ l) r.left_is);
          enough = ground (arith, r.enough);
        })
    | inr goes ↦
        let r = remove_oldest-Removed fails active (excess - 1) logs in
        let this : (remove_oldest fails active excess (l ∷ logs)).0
            ≡ (remove_oldest fails active (excess - 1) logs).0 =
          ground arith in
        rw this (record {
          front = l ∷ r.front;
          rest = r.rest;
          split = ap (◌∷◌ l) r.split;
          left_is = rw goes r.left_is;
          enough = ground (arith, r.enough);
        })
  ]
]

-- Whichever removals fail: the logs are taken oldest first, by time and then by name, and each
-- once; from a front part only the active journal and those whose removal fails stay, behind it all
-- stay. As many are removed as there are logs beyond ten, so that at least ten stay where there
-- were ten, and of fewer none goes; or more than ten are left because every log has been tried.
pub prune_session_logs_lem :
    (fails : Text → Bool) (active : Text) (logs : List RetainedLog)
    → let left = (prune_session_logs fails active logs).0 in
      (front : List RetainedLog) × (rest : List RetainedLog) × Perm (front ++ rest) logs
      × IsSorted (front ++ rest)
      × (left ≡ spared fails active front ++ rest)
      × ((length left + (length logs - 10) ≡ length logs)
          ⊎ ((rest ≡ []) × (length logs < length left + (length logs - 10))))
unfolding prune_session_logs
prune_session_logs_lem fails active logs =
    let r = remove_oldest-Removed fails active (length logs - 10) (sort_logs logs) in
    let n = length-sort_logs logs in
    (
      r.front,
      r.rest,
      rw (← r.split) (sort_logs_perm logs),
      rw (← r.split) (sort_logs-IsSorted logs),
      r.left_is,
      elim r.enough [ inl e ↦ inl (e ∙ n) | inr (e, over) ↦ inr (e, rw n at over) ],
    )
