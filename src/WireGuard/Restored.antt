-- ===== src/WireGuard/Restored.antt =====
-- Taking the interface down gives the system its routes back.
use pwdtt.Prelude.{
  ℕ, ◌+◌, ◌<◌, ◌≤◌, true, false, not, ◌&&◌, Bool-cases, List, [], ◌∷◌, ◌++◌, All, total, ◌≡◌, ◌⊎◌,
  inl, inr, refl, sym, ap, arith, if◌then◌else◌,
}
use pwdtt.Prelude.Text.{Text, ◌≗◌, ≗_refl, ≗_iff}
use pwdtt.WireGuard.{WgConfig, parse_wg_config}
use pwdtt.WireGuard.Routes.{
  Net, Tools, NetMove, applies, tears_down, remove_first, add_route, add_routes, all_routes,
  delete_routes, teardown_linux, bring_up, apply_linux, run_net,
}

abbrev is_to : Text → Text → ℕ
is_to d x = if x ≗ d then 1 else 0

-- How many routes go to a destination.
abbrev count : Text → List Text → ℕ
count d = total (is_to d)

count-remove_first :
    (d x : Text) (own : List Text)
    → 0 < count d own
    → is_to x d + count x (remove_first d own) ≡ count x own
unfolding remove_first
count-remove_first d x [] h = absurd (omega arith)
count-remove_first d x (y ∷ own) h = elim (Bool-cases (y ≗ d)) [
  | inl here ↦ let same = (≗_iff y d).0 here in rw (here, same) refl
  | inr other ↦
      rw other
        (let rest = count-remove_first d x own (ground (arith, h, other)) in omega (arith, rest))
]

remove_first-append :
    (d : Text) (own base : List Text)
    → 0 < count d own
    → remove_first d (own ++ base) ≡ remove_first d own ++ base
unfolding remove_first
remove_first-append d [] base h = absurd (omega arith)
remove_first-append d (y ∷ own) base h = elim (Bool-cases (y ≗ d)) [
  | inl here ↦ rw here refl
  | inr other ↦ rw other (ap (◌∷◌ y) (remove_first-append d own base (ground (arith, h, other))))
]

count_self : (d : Text) (ds : List Text) → 0 < count d (d ∷ ds)
count_self d ds = ground (arith, ≗_refl d)

-- The system's routes stand behind others, among them those that are noted.
record IsBehind (base : List Text) (n : Net) : Type 0 where
  own : List Text
  stands : n.table ≡ own ++ base
  noted : (d : Text) → count d n.active_routes ≤ count d own

-- The same with no others than those that are noted.
record IsOwn (base : List Text) (n : Net) : Type 0 where
  own : List Text
  stands : n.table ≡ own ++ base
  noted : (d : Text) → count d n.active_routes ≡ count d own

module _ (sys : Tools) where
  -- Deletions of noted routes take none of the system's.
  delete_routes_behind :
      (ds own base : List Text)
      → ((d : Text) → count d ds ≤ count d own)
      → (left : List Text) × (delete_routes sys ds (own ++ base) ≡ left ++ base)
  unfolding delete_routes
  delete_routes_behind [] own base h = (own, refl)
  delete_routes_behind (d ∷ ds) own base h =
      let there : 0 < count d own = omega (arith, h d, count_self d ds) in
      elim (Bool-cases (sys.deletes d (own ++ base))) [
        | inr refused ↦
            let (left, e) = delete_routes_behind ds own base (λ x. omega (arith, h x)) in
            (left, rw (delete_routes, refused) e)
        | inl gone ↦
            let (left, e) =
              delete_routes_behind ds (remove_first d own) base
                (λ x. omega (arith, h x, count-remove_first d x own there)) in
            (left, rw (delete_routes, gone, remove_first-append d own base there) e)
      ]

  -- The tools delete a route if there is one to the destination.
  abbrev pub Deletes : Type 0
  Deletes = (d : Text) (table : List Text) → 0 < count d table → sys.deletes d table ≡ true

  none_counted : (own : List Text) → ((d : Text) → count d own ≡ 0) → own ≡ []
  none_counted [] h = refl
  none_counted (d ∷ own) h = absurd (omega (arith, h d, count_self d own))

  count_front : (d : Text) (own base : List Text) → count d own ≤ count d (own ++ base)
  count_front d [] base = omega arith
  count_front d (x ∷ own) base = omega (arith, count_front d own base)

  delete_routes_own :
      (ds own base : List Text)
      → Deletes
      → ((d : Text) → count d ds ≡ count d own)
      → delete_routes sys ds (own ++ base) ≡ base
  unfolding delete_routes
  delete_routes_own [] own base k h = rw (none_counted own (λ d. sym (h d))) refl
  delete_routes_own (d ∷ ds) own base k h =
      let there : 0 < count d own = omega (arith, h d, count_self d ds) in
      let gone = k d (own ++ base) (omega (arith, count_front d own base)) in
      rw (delete_routes, gone, remove_first-append d own base there)
        (delete_routes_own ds (remove_first d own) base k
          (λ x. omega (arith, h x, count-remove_first d x own there)))

bring_up_cases :
    (sys : Tools) (c : WgConfig) (turn_ips : List Text) (n : Net)
    → let linked = record n { link = true } in
      ((bring_up sys c turn_ips n).1 ≡ n)
      ⊎ ((bring_up sys c turn_ips n).1 ≡ linked)
      ⊎ ((bring_up sys c turn_ips n).1
          ≡ add_routes sys (all_routes sys turn_ips c.allowed_ips) linked)
unfolding bring_up
bring_up_cases sys c turn_ips n = ground arith

-- The tools that a use of the interface calls.
abbrev tools_of : NetMove → Tools
tools_of (applies sys conf turn_ips) = sys
tools_of (tears_down sys) = sys

-- What adding a route, a link and taking the interface down keep, any uses of the interface keep.
module _ (Inv : Net → Type 0) (Lawful : Tools → Type 0)
    (linked : (n : Net) → Inv n → Inv (record n { link = true }))
    (added : (sys : Tools) (d : Text) (n : Net) → Inv n → Inv (add_route sys d n))
    (torn : (sys : Tools) (n : Net) → Lawful sys → Inv n → Inv (teardown_linux sys n)) where
  add_routes-Inv : (sys : Tools) (ds : List Text) (n : Net) → Inv n → Inv (add_routes sys ds n)
  unfolding add_routes
  add_routes-Inv sys [] n h = h
  add_routes-Inv sys (d ∷ ds) n h = add_routes-Inv sys ds (add_route sys d n) (added sys d n h)

  bring_up-Inv :
      (sys : Tools) (c : WgConfig) (turn_ips : List Text) (n : Net)
      → Inv n
      → Inv (bring_up sys c turn_ips n).1
  bring_up-Inv sys c turn_ips n h = elim (bring_up_cases sys c turn_ips n) [
    | inl down ↦ rw down h
    | inr (inl up) ↦ rw up (linked n h)
    | inr (inr done) ↦ rw done (
        add_routes-Inv sys (all_routes sys turn_ips c.allowed_ips) (record n { link = true })
          (linked n h))
  ]

  run_net-Inv :
      (moves : List NetMove) (n : Net)
      → All (λ m. Lawful (tools_of m)) moves
      → Inv n
      → Inv (run_net moves n)
  unfolding run_net apply_linux
  run_net-Inv [] n k h = h
  run_net-Inv (applies sys conf turn_ips ∷ moves) n (k, ks) h =
      run_net-Inv moves (apply_linux sys conf turn_ips n).1 ks
        (bring_up-Inv sys (parse_wg_config conf) turn_ips (teardown_linux sys n) (torn sys n k h))
  run_net-Inv (tears_down sys ∷ moves) n (k, ks) h =
      run_net-Inv moves (teardown_linux sys n) ks (torn sys n k h)

count-append_one : (x d : Text) (ds : List Text) → count x (ds ++ d ∷ []) ≡ count x ds + is_to x d
count-append_one x d [] = omega arith
count-append_one x d (y ∷ ds) = omega (arith, count-append_one x d ds)

all_units : (moves : List NetMove) → All (λ m. Unit {0}) moves
all_units [] = tt
all_units (m ∷ moves) = (tt, all_units moves)

module _ (base : List Text) where
  abbrev start : Net
  start = record { table = base; link = false; active_routes = [] }

  add_route-IsBehind :
      (sys : Tools) (d : Text) (n : Net) → IsBehind base n → IsBehind base (add_route sys d n)
  unfolding add_route
  add_route-IsBehind sys d n h = elim (Bool-cases (sys.accepts d n.table)) [
    | inr refused ↦ rw (refused, add_route) h
    | inl accepted ↦
        rw (accepted, add_route)
          record {
            own = d ∷ h.own;
            stands = ap (◌∷◌ d) h.stands;
            noted = λ x. omega (arith, h.noted x, count-append_one x d n.active_routes);
          }
  ]

  add_route-IsOwn :
      (sys : Tools) (d : Text) (n : Net) → IsOwn base n → IsOwn base (add_route sys d n)
  unfolding add_route
  add_route-IsOwn sys d n h = elim (Bool-cases (sys.accepts d n.table)) [
    | inr refused ↦ rw (refused, add_route) h
    | inl accepted ↦
        rw (accepted, add_route)
          record {
            own = d ∷ h.own;
            stands = ap (◌∷◌ d) h.stands;
            noted = λ x. omega (arith, h.noted x, count-append_one x d n.active_routes);
          }
  ]

  teardown_linux_behind :
      (sys : Tools) (n : Net)
      → IsBehind base n
      → (left : List Text) × ((teardown_linux sys n).table ≡ left ++ base)
  unfolding teardown_linux
  teardown_linux_behind sys n h =
      rw h.stands (delete_routes_behind sys n.active_routes h.own base h.noted)

  teardown_linux-IsBehind :
      (sys : Tools) (n : Net) → Unit {0} → IsBehind base n → IsBehind base (teardown_linux sys n)
  teardown_linux-IsBehind sys n k h =
      let (left, e) = teardown_linux_behind sys n h in
      record { own = left; stands = e; noted = λ d. unfold teardown_linux in omega arith }

  teardown_linux_own :
      (sys : Tools) (n : Net) → Deletes sys → IsOwn base n → (teardown_linux sys n).table ≡ base
  unfolding teardown_linux
  teardown_linux_own sys n k h =
      rw h.stands (delete_routes_own sys n.active_routes h.own base k h.noted)

  teardown_linux-IsOwn :
      (sys : Tools) (n : Net) → Deletes sys → IsOwn base n → IsOwn base (teardown_linux sys n)
  teardown_linux-IsOwn sys n k h = record {
    own = [];
    stands = teardown_linux_own sys n k h;
    noted = λ d. unfold teardown_linux in refl;
  }

  -- Whatever configurations are applied one after another, at whatever command each fails, and whatever
  -- deletions fail: the routes that the system had before the first one are never removed. Routes
  -- that the program could not delete may stand before them.
  pub run_net_keeps :
      (moves : List NetMove) → (left : List Text) × ((run_net moves start).table ≡ left ++ base)
  run_net_keeps moves =
      let h =
        run_net-Inv (IsBehind base) (λ sys. Unit {0})
          (λ n h. record { own = h.own; stands = h.stands; noted = h.noted }) add_route-IsBehind
          teardown_linux-IsBehind moves start (all_units moves)
          record { own = []; stands = refl; noted = λ d. omega arith } in
      (h.own, h.stands)

  -- If the tools, once they are asked to delete a route that is there, do so, and the last ones delete
  -- the interface: whatever configurations are applied one after another, and at whatever command each
  -- fails, taking the interface down leaves the routes that the system had before the first one, in
  -- their order, no interface, and nothing noted.
  pub teardown_linux-run_net :
      (moves : List NetMove) (sys : Tools)
      → All (λ m. Deletes (tools_of m)) moves
      → Deletes sys
      → sys.link_del ≡ true
      → teardown_linux sys (run_net moves start) ≡ start
  unfolding teardown_linux
  teardown_linux-run_net moves sys ks k l =
      let h =
        run_net-Inv (IsOwn base) Deletes
          (λ n h. record { own = h.own; stands = h.stands; noted = h.noted }) add_route-IsOwn
          teardown_linux-IsOwn moves start ks
          record { own = []; stands = refl; noted = λ d. refl } in
      let table = teardown_linux_own sys (run_net moves start) k h in
      let link : ((run_net moves start).link && not sys.link_del) ≡ false = ground (arith, l) in
      rw (table, link) refl
