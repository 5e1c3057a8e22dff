-- ===== src/SessionLog/Journal.antt =====
-- What holds of a journal after any operations on any disk.
use mathlib.Core.List.{append-nil, append_assoc}
use pwdtt.Prelude.{
  ℕ, zero, suc, ◌+◌, ◌≤◌, Bool, true, false, List, [], ◌∷◌, ◌++◌, none, some, ◌≡◌, ◌⊎◌, inl, inr,
  refl, sym, ap, ◌∙◌, arith, take, if◌then◌else◌,
}
use pwdtt.Prelude.Text.{Text, byte_len}
use pwdtt.SessionLog.{LogFile, Warning, file_limit, open_log_file, warn, remember, join}
use pwdtt.SessionLog.Ring.{
  total, total-append, byte_len-append, IsRecent, shrink-IsRecent, IsRecent-append,
}

abbrev pub content : LogFile → Text
content lf = elim lf.file [ none ↦ [] | some c ↦ c ]

join-append : (a : List Text) (l : Text) → join (a ++ l ∷ []) ≡ join a ++ l
unfolding join
join-append [] l = append-nil l
join-append (x ∷ a) l = ap (◌++◌ x) (join-append a l) ∙ sym (append_assoc x (join a) l)

-- The journal of the lines `all`: the ring holds the recent ones, its count and the file's size are
-- right and bounded, and the file holds all lines unless there is none, it is full or it failed.
pub record IsJournal (all : List Text) (lf : LogFile) : Type 0 where
  pub recent : IsRecent all lf.ring
  ring_count : lf.ring_bytes ≡ total lf.ring
  pub bounded : lf.size ≤ file_limit
  pub size_is : (lf.disk_fault ≡ true) ⊎ (lf.size ≡ byte_len (content lf))
  pub complete :
      (lf.file ≡ none) ⊎ (lf.disk_fault ≡ true) ⊎ (lf.truncated ≡ true) ⊎ (content lf ≡ join all)

pub take_all : (n : ℕ) (l : Text) → byte_len (take n l) ≡ byte_len l → take n l ≡ l
unfolding byte_len
take_all zero [] h = refl
take_all zero (c ∷ l) h = absurd (ground arith)
take_all (suc n) [] h = refl
take_all (suc n) (c ∷ l) h = ap (◌∷◌ c) (take_all n l (ground arith))

-- Only the fields that a journal is about.
module _ (all : List Text) (lf lf' : LogFile) where
  -- A fault is recorded, and the ring stays.
  pub faulty-IsJournal :
      IsJournal all lf
      → lf'.ring ≡ lf.ring
      → lf'.ring_bytes ≡ lf.ring_bytes
      → lf'.size ≤ file_limit
      → lf'.disk_fault ≡ true
      → IsJournal all lf'
  faulty-IsJournal h r b s f = record {
    recent = rw r h.recent;
    ring_count = rw (r, b) h.ring_count;
    bounded = s;
    size_is = inl f;
    complete = inr (inl f);
  }

  -- Warnings and the other marks do not matter.
  pub same-IsJournal :
      IsJournal all lf
      → lf'.ring ≡ lf.ring
      → lf'.ring_bytes ≡ lf.ring_bytes
      → lf'.size ≡ lf.size
      → lf'.file ≡ lf.file
      → lf'.disk_fault ≡ lf.disk_fault
      → (lf'.truncated ≡ true) ⊎ (lf'.truncated ≡ lf.truncated)
      → IsJournal all lf'
  same-IsJournal h r b s f d (inr t) = record {
    recent = rw r h.recent;
    ring_count = rw (r, b) h.ring_count;
    bounded = rw s h.bounded;
    size_is = rw (s, f, d) h.size_is;
    complete = rw (f, d, t) h.complete;
  }
  same-IsJournal h r b s f d (inl t) = record {
    recent = rw r h.recent;
    ring_count = rw (r, b) h.ring_count;
    bounded = rw s h.bounded;
    size_is = rw (s, f, d) h.size_is;
    complete = inr (inr (inl t));
  }

-- A new journal, over no file or over an empty one.
pub open_log_file-IsJournal :
    (has_file : Bool) (ws : List Warning)
    → IsJournal [] (open_log_file (if has_file then some [] else none) ws)
unfolding open_log_file total byte_len join
open_log_file-IsJournal true ws = record {
  recent = record { dropped = []; split = refl; fits = omega arith; longest = inl refl };
  ring_count = refl;
  bounded = omega arith;
  size_is = inr refl;
  complete = inr (inr (inr refl));
}
open_log_file-IsJournal false ws = record {
  recent = record { dropped = []; split = refl; fits = omega arith; longest = inl refl };
  ring_count = refl;
  bounded = omega arith;
  size_is = inr refl;
  complete = inl refl;
}

-- A warning changes nothing else.
pub record IsWarned (lf lf' : LogFile) : Type 0 where
  pub ring_is : lf'.ring ≡ lf.ring
  pub bytes_is : lf'.ring_bytes ≡ lf.ring_bytes
  pub size_same : lf'.size ≡ lf.size
  pub file_is : lf'.file ≡ lf.file
  pub fault_is : lf'.disk_fault ≡ lf.disk_fault
  pub truncated_is : lf'.truncated ≡ lf.truncated

pub warn-IsWarned : (w : Warning) (lf : LogFile) → IsWarned lf (warn w lf)
unfolding warn
warn-IsWarned w lf = record {
  ring_is = ground arith;
  bytes_is = ground arith;
  size_same = ground arith;
  file_is = ground arith;
  fault_is = ground arith;
  truncated_is = ground arith;
}

module _ (all : List Text) (lf : LogFile) (line : Text) (h : IsJournal all lf) where
  abbrev lines : List Text
  lines = all ++ line ∷ []

  abbrev pub held : LogFile
  held = remember line lf

  -- The ring after the line has entered it.
  held_ring : IsRecent lines held.ring × (held.ring_bytes ≡ total held.ring)
  unfolding remember total
  held_ring =
      let bytes : lf.ring_bytes + byte_len line ≡ total (lf.ring ++ line ∷ []) =
        omega (arith, h.ring_count, total-append lf.ring (line ∷ [])) in
      let (recent, count) =
        shrink-IsRecent (lf.ring_bytes + byte_len line) (lf.ring ++ line ∷ []) bytes in
      (IsRecent-append all lf.ring held.ring line h.recent recent, count)

  pub held_rest :
      (held.size ≡ lf.size)
      × (held.file ≡ lf.file)
      × (held.disk_fault ≡ lf.disk_fault)
      × (held.truncated ≡ lf.truncated)
      × (held.closed ≡ lf.closed)
  unfolding remember
  held_rest = (refl, refl, refl, refl, refl)

  -- The line that did not go to the file, for a reason that stays visible.
  pub unwritten :
      (lf' : LogFile)
      → lf'.ring ≡ held.ring
      → lf'.ring_bytes ≡ held.ring_bytes
      → lf'.size ≡ lf.size
      → lf'.file ≡ lf.file
      → lf'.disk_fault ≡ lf.disk_fault
      → (lf.file ≡ none) ⊎ (lf'.truncated ≡ true)
      → IsJournal lines lf'
  unwritten lf' r b s f d why = record {
    recent = rw r held_ring.0;
    ring_count = rw (r, b) held_ring.1;
    bounded = rw s h.bounded;
    size_is = rw (s, f, d) h.size_is;
    complete = elim why [ inl n ↦ inl (f ∙ n) | inr t ↦ inr (inr (inl t)) ];
  }

  -- The disk failed.
  pub faulty :
      (lf' : LogFile)
      → lf'.ring ≡ held.ring
      → lf'.ring_bytes ≡ held.ring_bytes
      → lf'.size ≤ file_limit
      → lf'.disk_fault ≡ true
      → IsJournal lines lf'
  faulty lf' r b s f = record {
    recent = rw r held_ring.0;
    ring_count = rw (r, b) held_ring.1;
    bounded = s;
    size_is = inl f;
    complete = inr (inl f);
  }

  -- The line went to the file.
  pub written :
      (c : Text) (lf' : LogFile)
      → lf.file ≡ some c
      → lf'.ring ≡ held.ring
      → lf'.ring_bytes ≡ held.ring_bytes
      → lf.size + byte_len line ≤ file_limit
      → lf'.size ≡ lf.size + byte_len line
      → lf'.file ≡ some (c ++ line)
      → lf'.disk_fault ≡ lf.disk_fault
      → lf'.truncated ≡ lf.truncated
      → IsJournal lines lf'
  written c lf' g r b n s f d t = record {
    recent = rw r held_ring.0;
    ring_count = rw (r, b) held_ring.1;
    bounded = rw s n;
    size_is = elim h.size_is [
      | inl fault ↦ inl (d ∙ fault)
      | inr same ↦ inr (rw (s, f) (omega (arith, rw g at same, byte_len-append c line)))
    ];
    complete = elim h.complete [
      | inl nowhere ↦ absurd (ground arith)
      | inr (inl fault) ↦ inr (inl (d ∙ fault))
      | inr (inr (inl full)) ↦ inr (inr (inl (t ∙ full)))
      | inr (inr (inr good)) ↦
          inr (inr (inr (rw (f, join-append all line) (ap (λ x. x ++ line) (rw g at good)))))
    ];
  }
