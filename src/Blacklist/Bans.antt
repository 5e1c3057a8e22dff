-- ===== src/Blacklist/Bans.antt =====
-- How long a ban lasts.
use pwdtt.Prelude.{
  ℕ, ◌+◌, ◌≤◌, ◌<◌, true, false, Bool-cases, Option-cases, some, ltb, leb, ◌≡◌, ◌⊎◌, inl, inr, refl,
  ap, ◌∙◌, arith, if◌then◌else◌,
}
use pwdtt.Prelude.Text.{Text, ◌≗◌, ≗_iff}
use pwdtt.Prelude.TextMap.{lookup, delete, lookup-insert, lookup-delete}
use pwdtt.Blacklist.{TurnBlacklist, is_banned, ban, clear}

-- A ban holds for its time to live, its end included, and ends earlier bans of the address; other
-- addresses are as before, and after a reset none is banned.
pub is_banned-ban :
    (addr other : Text) (at now : ℕ) (b : TurnBlacklist)
    → ((is_banned other now (ban addr at b)).0
        ≡ (if addr ≗ other then leb now (at + b.ttl) else (is_banned other now b).0))
      × ((is_banned other now (clear b)).0 ≡ false)
unfolding is_banned ban clear lookup
is_banned-ban addr other at now b =
    (ground (arith, lookup-insert addr other (at + b.ttl) b.bans), refl)

-- What asking leaves.
is_banned_leaves :
    (addr : Text) (now : ℕ) (b : TurnBlacklist)
    → ((is_banned addr now b).1 ≡ b)
      ⊎ ((until : ℕ) × (lookup addr b.bans ≡ some until)
          × (until < now)
          × ((is_banned addr now b).1 ≡ record b { bans = delete addr b.bans }))
unfolding is_banned
is_banned_leaves addr now b = elim (Option-cases (lookup addr b.bans)) [
  | inl never ↦ inl (ground arith)
  | inr (until, banned) ↦ elim (Bool-cases (ltb until now)) [
    | inr holds ↦ inl (ground arith)
    | inl over ↦ inr (until, banned, ground arith, ground arith)
  ]
]

is_banned_gone :
    (addr other : Text) (until later : ℕ) (b : TurnBlacklist)
    → lookup addr b.bans ≡ some until
    → until < later
    → (is_banned other later (record b { bans = delete addr b.bans })).0
      ≡ (is_banned other later b).0
unfolding is_banned
is_banned_gone addr other until later b banned over = elim (Bool-cases (addr ≗ other)) [
  | inl same ↦
      let e : lookup other b.bans ≡ some until = rw (← (≗_iff addr other).0 same) banned in
      ground (arith, lookup-delete addr other b.bans)
  | inr different ↦ ground (arith, lookup-delete addr other b.bans)
]

-- Asking whether an address is banned, which removes a ban that is over, changes no later answer.
pub is_banned-is_banned :
    (addr other : Text) (now later : ℕ) (b : TurnBlacklist)
    → now ≤ later
    → (is_banned other later (is_banned addr now b).1).0 ≡ (is_banned other later b).0
is_banned-is_banned addr other now later b h = elim (is_banned_leaves addr now b) [
  | inl same ↦ ap (λ c. (is_banned other later c).0) same
  | inr (until, banned, over, left) ↦
      ap (λ c. (is_banned other later c).0) left
      ∙ is_banned_gone addr other until later b banned (omega arith)
]

pub is_banned_ttl :
    (addr : Text) (now : ℕ) (b : TurnBlacklist) → (is_banned addr now b).1.ttl ≡ b.ttl
unfolding is_banned
is_banned_ttl addr now b = ground arith

-- An address that is banned at a time is banned before it.
pub is_banned_earlier :
    (addr : Text) (now later : ℕ) (b : TurnBlacklist)
    → now ≤ later
    → (is_banned addr later b).0 ≡ true
    → (is_banned addr now b).0 ≡ true
unfolding is_banned
is_banned_earlier addr now later b h banned = ground arith
