-- ===== src/Blacklist.antt =====
-- core/blacklist.go: addresses that are not used for a while. Times are in nanoseconds; each
-- operation runs as a whole, so nothing happens between the two locks of `IsBanned`.
pub mod Bans
use pwdtt.Prelude.{
  ℕ, ◌+◌, Bool, true, false, List, [], ◌∷◌, Option, none, some, ltb, if◌then◌else◌, map, length,
}
use pwdtt.Prelude.Text.{Text}
use pwdtt.Prelude.TextMap.{TextMap, lookup, insert, delete}

pub record TurnBlacklist : Type 0 where
  pub bans : TextMap ℕ
  pub ttl : ℕ

unfoldable pub new_turn_blacklist : ℕ → TurnBlacklist
new_turn_blacklist ttl = record { bans = []; ttl = ttl }

-- 5 minutes.
abbrev pub global_blacklist : TurnBlacklist
global_blacklist = new_turn_blacklist 300_000_000_000

unfoldable pub is_banned : Text → ℕ → TurnBlacklist → Bool × TurnBlacklist
is_banned addr now b = elim (lookup addr b.bans) [
  | none ↦ (false, b)
  | some until ↦
      if ltb until now then (false, record b { bans = delete addr b.bans }) else (true, b)
]

unfoldable pub ban : Text → ℕ → TurnBlacklist → TurnBlacklist
ban addr now b = record b { bans = insert addr (now + b.ttl) b.bans }

unfoldable pub clear : TurnBlacklist → TurnBlacklist
clear b = record b { bans = [] }

-- `Len` counts the bans that nobody has found to be over.
unfoldable pub len : TurnBlacklist → ℕ
len b = length b.bans

unfoldable get_banned : TurnBlacklist → List Text
get_banned b = map (λ e. e.0) b.bans
