-- ===== src/Backend/Prepare/Known.antt =====
-- Entries that are left when some are known to be invalid.
use pwdtt.Prelude.{true, false, List, [], ◌∷◌, ◌≡◌, if◌then◌else◌, arith}
use pwdtt.Prelude.Text.{Text, ≗_refl}
use pwdtt.Prelude.TextSet.{mem_text}
use pwdtt.Types.{VkHashEntry}
use pwdtt.Registry.Entries.{hashes_of}

-- The entries without the identifiers `bad`.
abbrev pub apart_from : List Text → List VkHashEntry → List VkHashEntry
apart_from bad [] = []
apart_from bad (e ∷ es) =
    let rest = apart_from bad es in if mem_text e.id bad then rest else e ∷ rest

-- The hash of an entry is left as long as its identifier is not known to be invalid.
abbrev pub Stands : List VkHashEntry → VkHashEntry → Type 0
Stands fallback e =
    (bad : List Text)
    → mem_text e.id bad ≡ false
    → mem_text e.hash (hashes_of (apart_from bad fallback)) ≡ true

pub Stands-head : (e : VkHashEntry) (es : List VkHashEntry) → Stands (e ∷ es) e
unfolding mem_text
Stands-head e es bad fresh = rw fresh (rw (≗_refl e.hash))

pub Stands-tail : (f e : VkHashEntry) (es : List VkHashEntry) → Stands es e → Stands (f ∷ es) e
unfolding mem_text
Stands-tail f e es h bad fresh = ground (arith, h bad fresh)
