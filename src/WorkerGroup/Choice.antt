-- ===== src/WorkerGroup/Choice.antt =====
-- Which address a turn takes.
use pwdtt.Prelude.{
  ℕ, zero, suc, ◌-◌, ◌%◌, ◌<◌, true, false, not, ◌&&◌, List, [], ◌∷◌, Bool-cases, List-cases, sym,
  ap, ◌∙◌, ◌≡◌, ◌⊎◌, inl, inr, refl, length, get_or, if◌then◌else◌, arith,
}
use pwdtt.Prelude.Text.{Text, ◌≗◌, ≗_iff, ≗_refl}
use pwdtt.Prelude.TextSet.{mem_text}
use pwdtt.Blacklist.{TurnBlacklist, is_banned}
use pwdtt.Blacklist.Bans.{is_banned-is_banned}
use pwdtt.WorkerGroup.{
  Worker, Group, choosing, filter_banned, select_turn_address, take_address, begin_turn,
}

-- Asking for an address first changes nothing about the filter's answers.
mem_text-filter_banned :
    (addr : Text) (urls : List Text) (now : ℕ) (b : TurnBlacklist)
    → mem_text addr (filter_banned urls now b).0
      ≡ (mem_text addr urls && not (is_banned addr now b).0)
unfolding filter_banned mem_text
mem_text-filter_banned addr [] now b = refl
mem_text-filter_banned addr (u ∷ urls) now b =
    let rest = mem_text-filter_banned addr urls now (is_banned u now b).1 in
    let kept = is_banned-is_banned u addr now now b (omega arith) in
    elim (Bool-cases (addr ≗ u)) [
      | inl same ↦
          let e : addr ≡ u = (≗_iff addr u).0 same in
          let r = ≗_refl u in
          let asked : (is_banned addr now b).0 ≡ (is_banned u now b).0 = rw e refl in
          ground (arith, rest, kept, asked)
      | inr different ↦ elim (Bool-cases (is_banned u now b).0) [
        | inl banned ↦ ground (arith, rest, kept)
        | inr free ↦ ground (arith, rest, kept)
      ]
    ]

mem_text-get_or :
    (xs : List Text) (i : ℕ) (d : Text) → i < length xs → mem_text (get_or xs i d) xs ≡ true
unfolding mem_text
mem_text-get_or [] i d h = absurd (omega arith)
mem_text-get_or (x ∷ xs) zero d h = ground (arith, ≗_refl x)
mem_text-get_or (x ∷ xs) (suc i) d h = ground (arith, mem_text-get_or xs i d (omega arith))

-- The worker after it has taken an address.
pub record Chooses (now : ℕ) (w : Worker) (g : Group) (v : Worker) (addr : Text) : Type 0 where
  pub phase : v.phase ≡ choosing addr (g.get_config && not g.config_sent)
  listed : mem_text addr g.turn_urls ≡ true
  pub allowed : (is_banned addr now g.blacklist).0 ≡ false
  pub current : v.current_turn_addr ≡ addr
  pub attempts : v.address_attempts ≡ (if addr ≗ w.current_turn_addr then w.address_attempts else 0)
  pub mode : v.obfs_mode ≡ (if addr ≗ w.current_turn_addr then w.obfs_mode else g.base_obfs_mode)

mem_text-select_turn_address :
    (a : Text) (rest : List Text) (id : ℕ)
    → mem_text (select_turn_address (a ∷ rest) id) (a ∷ rest) ≡ true
unfolding select_turn_address
mem_text-select_turn_address a rest id =
    mem_text-get_or (a ∷ rest) ((id - 1) % length (a ∷ rest)) [] (omega arith)

-- A turn takes an address exactly if one of the credentials' addresses is not banned, and then a
-- listed address that is not banned; the worker keeps its attempts and its mode if that is the
-- address of its last turn, and otherwise starts again with none and the group's mode.
pub begin_turn_lem :
    (now : ℕ) (w : Worker) (g : Group)
    → ((begin_turn now w g).0 ≡ w)
        × ((u : Text) → (mem_text u g.turn_urls && not (is_banned u now g.blacklist).0) ≡ false)
      ⊎ ((addr : Text) × Chooses now w g (begin_turn now w g).0 addr)
unfolding begin_turn take_address mem_text
begin_turn_lem now w g =
    let kept = λ (u : Text). mem_text-filter_banned u g.turn_urls now g.blacklist in
    elim (List-cases (filter_banned g.turn_urls now g.blacklist).0) [
      | inl nothing ↦ inl (ground arith, λ u. sym (kept u) ∙ ap (mem_text u) nothing)
      | inr (a, rest, some_left) ↦
          let addr = select_turn_address (a ∷ rest) w.id in
          let chosen : mem_text addr (filter_banned g.turn_urls now g.blacklist).0 ≡ true =
            rw some_left (mem_text-select_turn_address a rest w.id) in
          inr (
            addr,
            record {
              phase = ground arith;
              listed = ground (arith, kept addr);
              allowed = ground (arith, kept addr);
              current = ground (arith, ≗_iff addr w.current_turn_addr);
              attempts = ground arith;
              mode = ground arith;
            },
          )
    ]
