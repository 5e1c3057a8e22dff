-- ===== src/HashOperations/Flights.antt =====
-- One probe for each key at a time, and no caller that waits for nothing.
use pwdtt.Prelude.{
  ℕ, Bool, true, false, Bool-cases, Option, none, some, ◌≡◌, ◌⊎◌, inl, inr, refl, ◌∙◌, arith,
  get_elem?, set, All, All-map, All-set, All-get, if◌then◌else◌, ◌==◌,
}
use pwdtt.Prelude.Text.{Text, ◌≗◌, ≗_iff, ≗_refl}
use pwdtt.Prelude.TextMap.{TextMap, lookup, insert, delete, lookup-insert, lookup-delete}
use pwdtt.HashOperations.{
  Caller, Shared, System, Phase, Outcome, entering, waiting, leading, probing, closing, returned,
}
use pwdtt.HashOperations.Counts.{owned, owns, owners, owners-set, All-set_owner}

abbrev pub has : Option Outcome → Bool
has none = false
has (some out) = true

-- The owner of a call finds it in the map, and one who waits for a call finds it there or closed.
abbrev pub FitsPhase : Shared → Text → Phase → Type 0
FitsPhase s key entering = Unit
FitsPhase s key (waiting c) = (lookup key s.in_flight ≡ some c) ⊎ (has (s.finished c) ≡ true)
FitsPhase s key (leading c) = lookup key s.in_flight ≡ some c
FitsPhase s key (probing c) = lookup key s.in_flight ≡ some c
FitsPhase s key (closing c out) = lookup key s.in_flight ≡ some c
FitsPhase s key (returned out) = Unit

abbrev pub Fits : Shared → Caller → Type 0
Fits s t = FitsPhase s t.key t.phase

-- The number of calls for a key that are in flight.
unfoldable pub flights : Text → TextMap ℕ → ℕ
flights key m = elim (lookup key m) [ none ↦ 0 | some c ↦ 1 ]

pub record IsCoordinated (s : System) : Type 0 where
  pub fits : All (Fits s.shared) s.callers
  pub single : (key : Text) → owners key s.callers ≡ flights key s.shared.in_flight

-- Another call enters the map.
Fits-insert :
    (s : Shared) (key : Text) (c n : ℕ)
    → lookup key s.in_flight ≡ none
    → (p : Phase) (k : Text) → FitsPhase s k p
    → FitsPhase (record s { in_flight = insert key c s.in_flight; next = n }) k p
Fits-insert s key c n free entering k h = tt
Fits-insert s key c n free (waiting d) k h =
    ground (arith, lookup-insert key k c s.in_flight, ≗_iff key k)
Fits-insert s key c n free (leading d) k h =
    ground (arith, lookup-insert key k c s.in_flight, ≗_iff key k)
Fits-insert s key c n free (probing d) k h =
    ground (arith, lookup-insert key k c s.in_flight, ≗_iff key k)
Fits-insert s key c n free (closing d out) k h =
    ground (arith, lookup-insert key k c s.in_flight, ≗_iff key k)
Fits-insert s key c n free (returned out) k h = tt

abbrev pub closed : Shared → Text → ℕ → Outcome → Shared
closed s key c out = record s {
  in_flight = delete key s.in_flight;
  finished = λ d. if d == c then some out else s.finished d;
}

-- A call leaves the map, for those who do not own it.
module _ (s : Shared) (key : Text) (c : ℕ) (out : Outcome)
    (at : lookup key s.in_flight ≡ some c) where
  Fits-delete :
      (p : Phase) (k : Text)
      → FitsPhase s k p
      → (if k ≗ key then owned p else 0) ≡ 0
      → FitsPhase (closed s key c out) k p
  Fits-delete entering k h n = tt
  Fits-delete (waiting d) k (inr f) n = inr (ground arith)
  Fits-delete (waiting d) k (inl f) n = elim (Bool-cases (d == c)) [
    | inl same ↦ inr (rw same refl)
    | inr other ↦ inl (ground (arith, lookup-delete key k s.in_flight, ≗_iff key k))
  ]
  Fits-delete (leading d) k h n =
      ground (arith, lookup-delete key k s.in_flight, ≗_iff key k, ≗_iff k key)
  Fits-delete (probing d) k h n =
      ground (arith, lookup-delete key k s.in_flight, ≗_iff key k, ≗_iff k key)
  Fits-delete (closing d o) k h n =
      ground (arith, lookup-delete key k s.in_flight, ≗_iff key k, ≗_iff k key)
  Fits-delete (returned o) k h n = tt

flights-insert :
    (key k : Text) (c : ℕ) (m : TextMap ℕ)
    → lookup key m ≡ none
    → flights k (insert key c m) ≡ (if key ≗ k then 1 else flights k m)
unfolding flights
flights-insert key k c m h = ground (arith, lookup-insert key k c m)

flights-delete :
    (key k : Text) (m : TextMap ℕ) → flights k (delete key m) ≡ (if key ≗ k then 0 else flights k m)
unfolding flights
flights-delete key k m = ground (arith, lookup-delete key k m)

-- A move that leaves the map alone, and that does not change who owns what.
module _ (s : System) (i : ℕ) (t : Caller) (at : get_elem? s.callers i ≡ some t)
    (h : IsCoordinated s) where
  pub same_owner :
      (t' : Caller)
      → t'.key ≡ t.key
      → owned t'.phase ≡ owned t.phase
      → Fits s.shared t'
      → IsCoordinated (record s { callers = set s.callers i t' })
  unfolding owns
  same_owner t' k o f = record {
    fits = All-set (Fits s.shared) s.callers i t' h.fits f;
    single = λ key.
        let n = owners-set key s.callers i t t' at in
        let same : owns key t' ≡ owns key t = rw (k, o) refl in
        omega (arith, n, same, h.single key);
  }

  pub here : Fits s.shared t
  here = All-get (Fits s.shared) s.callers i t h.fits at

  -- A new call.
  pub new_owner :
      (c n : ℕ) (t' : Caller)
      → lookup t.key s.shared.in_flight ≡ none
      → t.phase ≡ entering
      → t'.key ≡ t.key
      → t'.phase ≡ leading c
      → IsCoordinated (record {
        callers = set s.callers i t';
        shared = record s.shared { in_flight = insert t.key c s.shared.in_flight; next = n };
      })
  unfolding owns flights
  new_owner c n t' free p k q = record {
    fits =
        All-set _ s.callers i t'
          (All-map (Fits s.shared) _ (λ u f. Fits-insert s.shared t.key c n free u.phase u.key f)
            s.callers h.fits)
          (rw (k, q) (lookup-insert t.key t.key c s.shared.in_flight ∙ rw (≗_refl t.key) refl));
    single = λ key.
        let m = owners-set key s.callers i t t' at in
        let before : owns key t ≡ 0 = rw p (ground arith) in
        let after : owns key t' ≡ (if t.key ≗ key then 1 else 0) = rw (k, q) refl in
        ground (
          arith,
          m,
          before,
          after,
          h.single key,
          flights-insert t.key key c s.shared.in_flight free,
          ≗_iff t.key key,
        );
  }

  -- A call that is closed.
  pub old_owner :
      (c : ℕ) (out : Outcome) (t' : Caller)
      → t.phase ≡ closing c out
      → t'.key ≡ t.key
      → t'.phase ≡ returned out
      → IsCoordinated
          (record { callers = set s.callers i t'; shared = closed s.shared t.key c out })
  unfolding owns flights
  old_owner c out t' p k q =
      let mine : lookup t.key s.shared.in_flight ≡ some c = rw p at here in
      let own : owns t.key t ≡ 1 = rw (p, ≗_refl t.key) refl in
      let one : owners t.key s.callers ≡ 1 = ground (arith, h.single t.key, mine) in
      record {
        fits =
            All-set_owner t.key (Fits s.shared) (Fits (closed s.shared t.key c out))
              (λ u f n. Fits-delete s.shared t.key c out mine u.phase u.key f n) s.callers i t t' at
              h.fits own one (rw q tt);
        single = λ key.
            let m = owners-set key s.callers i t t' at in
            let before : owns key t ≡ (if t.key ≗ key then 1 else 0) = rw p refl in
            let after : owns key t' ≡ 0 = rw (k, q) (ground arith) in
            ground (
              arith,
              m,
              before,
              after,
              h.single key,
              flights-delete t.key key s.shared.in_flight,
              ≗_iff t.key key,
              mine,
            );
      }
