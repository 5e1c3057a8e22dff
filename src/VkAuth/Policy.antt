-- ===== src/VkAuth/Policy.antt =====
-- When another pair of client credentials is tried, and what wrapping does to an error's kind.
use pwdtt.Prelude.{
  ◌≤◌, true, false, Bool-cases, Option-cases, Result-cases, List, [], ◌∷◌, ◌++◌, none, some, ok,
  err, ◌≡◌, ◌⊎◌, inl, inr, refl, ap, arith, All, length, take, length-take,
}
use pwdtt.VkAuth.{
  VkAuthErrorKind, canceled, context_canceled, is_canceled, Cause, Chain, first_cause, first_test,
  classify_vk_auth_error, is_invalid_client, should_use_legacy, Attempt, Walk, got, not_configured,
  context_over, failed, rejected, try_pairs, try_vk_credential_pairs,
}

-- An attempt that ran and was rejected for its client credentials.
record IsRejected {R : Type 0} (a : Attempt R) : Type 0 where
  pub error : Chain
  pub alive : a.context_error ≡ none
  pub fails : a.result ≡ err error
  pub credentials : is_invalid_client (classify_vk_auth_error (some error)) ≡ true

-- An attempt that ends the walk: its context is over, it succeeds, or it fails otherwise.
abbrev Decides : {R : Type 0} → Attempt R → Walk R → Type 0
Decides {R = R} a w =
    ((e : Chain) × (a.context_error ≡ some e) × (w ≡ context_over e))
    ⊎ ((r : R) × (a.context_error ≡ none) × (a.result ≡ ok r) × (w ≡ got r))
    ⊎ ((e : Chain) × (a.context_error ≡ none)
        × (a.result ≡ err e)
        × (is_invalid_client (classify_vk_auth_error (some e)) ≡ false)
        × (w ≡ failed e))

-- The attempts made: rejected ones, and then one that decides, or none is left and the walk ends as
-- `ended` says.
pub record Walked {R : Type 0} (attempts : List (Attempt R)) (w : Walk R)
    (ended : List (Attempt R) → Type 0) : Type 0 where
  pub tried : List (Attempt R)
  pub left : List (Attempt R)
  pub split : attempts ≡ tried ++ left
  rejections : All IsRejected tried
  pub outcome :
      ((a : Attempt R) × (after : List (Attempt R)) × (left ≡ a ∷ after) × Decides a w)
      ⊎ ((left ≡ []) × ended tried)

-- The error of the last attempt, or what was there before.
abbrev pub Last : {R : Type 0} → Walk R → Walk R → List (Attempt R) → Type 0
Last {R = R} last w tried =
    ((tried ≡ []) × (w ≡ last))
    ⊎ ((front : List (Attempt R)) × (a : Attempt R) × (e : Chain) × (tried ≡ front ++ a ∷ [])
        × (a.result ≡ err e)
        × (w ≡ rejected e))

module _ {R : Type 0} where
  Walked-stop :
      (a : Attempt R) (attempts : List (Attempt R)) (last w : Walk R)
      → Decides a w
      → Walked (a ∷ attempts) w (Last last w)
  Walked-stop a attempts last w d = record {
    tried = [];
    left = a ∷ attempts;
    split = refl;
    rejections = tt;
    outcome = inl (a, attempts, refl, d);
  }

  Last-more :
      (a : Attempt R) (e : Chain) (last w : Walk R) (tried : List (Attempt R))
      → a.result ≡ err e
      → Last (rejected e) w tried
      → Last last w (a ∷ tried)
  Last-more a e last w tried f (inl (none_more, same)) =
      inr ([], a, e, ap (◌∷◌ a) none_more, f, same)
  Last-more a e last w tried f (inr (front, b, e', split, g, same)) =
      inr (a ∷ front, b, e', ap (◌∷◌ a) split, g, same)

  try_pairs-Walked :
      (attempts : List (Attempt R)) (last : Walk R)
      → Walked attempts (try_pairs attempts last) (Last last (try_pairs attempts last))
  unfolding try_pairs
  try_pairs-Walked [] last = record {
    tried = [];
    left = [];
    split = refl;
    rejections = tt;
    outcome = inr (refl, inl (refl, refl));
  }
  try_pairs-Walked (a ∷ attempts) last =
      let w = try_pairs (a ∷ attempts) last in
      elim (Option-cases a.context_error) [
        | inr (e, over) ↦ Walked-stop a attempts last w (inl (e, over, ground arith))
        | inl alive ↦ elim (Result-cases a.result) [
          | inl (r, good) ↦ Walked-stop a attempts last w (inr (inl (r, alive, good, ground arith)))
          | inr (e, bad) ↦ elim (Bool-cases (is_invalid_client (classify_vk_auth_error (some e)))) [
            | inr fatal ↦
                Walked-stop a attempts last w (inr (inr (e, alive, bad, fatal, ground arith)))
            | inl client ↦
                let rest = try_pairs-Walked attempts (rejected e) in
                let same : w ≡ try_pairs attempts (rejected e) = ground arith in
                rw same (record {
                  tried = a ∷ rest.tried;
                  left = rest.left;
                  split = ap (◌∷◌ a) rest.split;
                  rejections = (
                    record { error = e; alive = alive; fails = bad; credentials = client },
                    rest.rejections,
                  );
                  outcome = elim rest.outcome [
                    | inl decided ↦ inl decided
                    | inr (none_left, ended) ↦
                        inr (none_left, Last-more a e last _ rest.tried bad ended)
                  ];
                })
          ]
        ]
      ]

-- At most four pairs of credentials are tried, in order, and another one only after a rejection of
-- the credentials. The walk ends with the first attempt whose context is over, that succeeds or that
-- fails for another reason, and as that attempt says; if there is none, with the last rejection.
pub try_vk_credential_pairs_lem :
    {R : Type 0}
    → (a : Attempt R) (attempts : List (Attempt R))
    → let w = try_vk_credential_pairs (a ∷ attempts) in
      (length (take 4 (a ∷ attempts)) ≤ 4)
      × Walked (take 4 (a ∷ attempts)) w (Last not_configured w)
unfolding try_vk_credential_pairs
try_vk_credential_pairs_lem a attempts = (
  omega (arith, length-take 4 (a ∷ attempts)),
  try_pairs-Walked (take 4 (a ∷ attempts)) not_configured,
)

is_canceled_only : (c : Cause) (k : VkAuthErrorKind) → is_canceled c ≡ some k → k ≡ canceled
is_canceled_only context_canceled k h = ground arith
is_canceled_only _ k h = absurd (ground arith)

canceled_found :
    (outer inner : Chain)
    → first_cause is_canceled (outer ++ context_canceled ∷ inner) ≡ some canceled
unfolding first_cause
canceled_found [] inner = refl
canceled_found (c ∷ outer) inner = elim (Option-cases (is_canceled c)) [
  | inl other ↦ rw (other, first_cause) (canceled_found outer inner)
  | inr (k, found) ↦ rw (found, first_cause) (ap some (is_canceled_only c k found))
]

canceled_first :
    (outer inner : Chain)
    → classify_vk_auth_error (some (outer ++ context_canceled ∷ inner)) ≡ canceled
unfolding classify_vk_auth_error first_test
canceled_first outer inner = ground (arith, canceled_found outer inner)

-- A canceled context anywhere in an error decides: the error counts as canceled whatever wraps it and
-- whatever it wraps, so no other pair of credentials is tried for it and the legacy way is not taken.
pub classify_canceled :
    (outer inner : Chain)
    → let e = outer ++ context_canceled ∷ inner in
      (classify_vk_auth_error (some e) ≡ canceled)
      × (is_invalid_client (classify_vk_auth_error (some e)) ≡ false)
      × (should_use_legacy e ≡ false)
unfolding should_use_legacy
classify_canceled outer inner =
    let kind = canceled_first outer inner in (kind, ap is_invalid_client kind, ground (arith, kind))
