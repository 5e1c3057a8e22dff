-- ===== src/VkHash/Generate.antt =====
-- `generateVKHashes` of backend/vk_hash.go. What VK answers to the call at an attempt, and whether
-- the wait before it was cut short, are arguments.
use pwdtt.Prelude.{
  ℕ, zero, suc, ◌+◌, ◌≤◌, ◌<◌, Bool, false, ◌&&◌, ◌||◌, Bool-cases, Option-cases, Result-cases,
  List, [], ◌∷◌, ◌++◌, Option, none, some, ok, err, ◌≡◌, ◌≢◌, refl, ◌⊎◌, inl, inr, arith, ltb, leb,
  if◌then◌else◌, length, length-append, All,
}
use pwdtt.Prelude.Text.{Text}
use pwdtt.Prelude.TextSet.{mem_text, mem_text-append, Distinct, Distinct-concat}
use pwdtt.VkHash.{Url, HashError, normalize_vk_call_hash}
use pwdtt.VkHash.Normal.{IsHash, normalize_vk_call_hash_idem}

pub data GenerateError : Type 0 where
  bad_count exhausted canceled call_failed : GenerateError
  bad_join_link : HashError → GenerateError

abbrev pub max_vk_hashes : ℕ
max_vk_hashes = 4

-- The client: `delay` is positive or not; `start_call` is the join link of an attempt, if any.
pub record VkClient : Type 0 where
  pub delays : Bool
  pub wait_canceled : ℕ → Bool
  pub start_call : ℕ → Option Text
  pub parse_url : Text → Option Url

-- The hashes of the list that are well formed.
unfoldable pub known_hashes : (Text → Option Url) → List Text → List Text
known_hashes parse_url [] = []
known_hashes parse_url (raw ∷ rest) =
    let others = known_hashes parse_url rest in
    elim (normalize_vk_call_hash parse_url raw) [ ok h ↦ h ∷ others | err e ↦ others ]

-- One turn of the loop: it stops with an error or with the result complete, or goes on.
pub data Turn : Type 0 where
  stop : Option GenerateError → Turn
  go_on : List Text → List Text → Turn

unfoldable pub generate_turn : VkClient → ℕ → List Text → List Text → Turn
generate_turn c attempts seen result =
    if ltb 0 attempts && c.delays && c.wait_canceled attempts
    then stop (some canceled)
    else elim (c.start_call attempts) [
      | none ↦ stop (some call_failed)
      | some link ↦ elim (normalize_vk_call_hash c.parse_url link) [
        | err e ↦ stop (some (bad_join_link e))
        | ok h ↦
            if mem_text h seen then go_on seen result else go_on (seen ++ h ∷ []) (result ++ h ∷ [])
      ]
    ]

-- The loop with `rounds` attempts left; the partial result is returned along with an error.
unfoldable pub generate_loop :
    VkClient → ℕ → ℕ → ℕ → List Text → List Text → List Text × Option GenerateError
generate_loop c count zero attempts seen result =
    if leb count (length result) then (result, none) else (result, some exhausted)
generate_loop c count (suc rounds) attempts seen result =
    let rest : List Text × Option GenerateError = elim (generate_turn c attempts seen result) [
      | stop e ↦ (result, e)
      | go_on seen' result' ↦ generate_loop c count rounds (attempts + 1) seen' result'
    ] in
    if leb count (length result) then (result, none) else rest

unfoldable pub generate_vk_hashes : VkClient → ℕ → List Text → List Text × Option GenerateError
generate_vk_hashes c count existing =
    if ltb count 1 || ltb max_vk_hashes count
    then ([], some bad_count)
    else generate_loop c count (count + max_vk_hashes) 0 (known_hashes c.parse_url existing) []

-- The hashes made so far are new: distinct, well formed, and none of them known before.
pub record IsFresh (known : List Text) (result : List Text) : Type 0 where
  pub distinct : Distinct result
  pub hashes : All IsHash result
  pub unknown : All (λ h. mem_text h known ≡ false) result

All-concat {ℓ κ} :
    {A : Type ℓ} (P : A → Type κ) (xs : List A) (x : A) → All P xs → P x → All P (xs ++ x ∷ [])
All-concat P [] x h p = (p, tt)
All-concat P (y ∷ xs) x h p = (h.0, All-concat P xs x h.1 p)

module _ (c : VkClient) (count : ℕ) (known : List Text) where
  -- What holds between turns: the seen map is the known hashes and the new ones.
  record LoopInv (seen result : List Text) : Type 0 where
    seen_is : (t : Text) → mem_text t seen ≡ (mem_text t known || mem_text t result)
    fresh : IsFresh known result

  LoopInv-concat :
      (seen result : List Text) (h : Text)
      → LoopInv seen result
      → IsHash h
      → mem_text h seen ≡ false
      → LoopInv (seen ++ h ∷ []) (result ++ h ∷ [])
  LoopInv-concat seen result h f good new =
      let unknown : mem_text h known ≡ false = ground (arith, f.seen_is h) in
      let unused : mem_text h result ≡ false = ground (arith, f.seen_is h) in
      record {
        seen_is = λ t. ground (
          arith,
          f.seen_is t,
          mem_text-append t seen (h ∷ []),
          mem_text-append t result (h ∷ []),
        );
        fresh = record {
          distinct = Distinct-concat result h f.fresh.distinct unused;
          hashes = All-concat IsHash result h f.fresh.hashes good;
          unknown = All-concat (λ t. mem_text t known ≡ false) result h f.fresh.unknown unknown;
        };
      }

  abbrev TurnInv : List Text → Turn → Type 0
  TurnInv result (stop e) = e ≢ none
  TurnInv result (go_on seen' result') =
      LoopInv seen' result' × (length result' ≤ length result + 1)

  generate_turn-TurnInv :
      (attempts : ℕ) (seen result : List Text)
      → LoopInv seen result
      → TurnInv result (generate_turn c attempts seen result)
  unfolding generate_turn
  generate_turn-TurnInv attempts seen result f =
      elim (Bool-cases (ltb 0 attempts && c.delays && c.wait_canceled attempts)) [
        | inl cut ↦ rw cut (λ e. cc)
        | inr waited ↦ rw waited (elim (Option-cases (c.start_call attempts)) [
          | inl failed ↦ rw failed (λ e. cc)
          | inr (link, got) ↦
              rw got (elim (Result-cases (normalize_vk_call_hash c.parse_url link)) [
                | inr (why, bad) ↦ rw bad (λ e. cc)
                | inl (h, good) ↦ rw good (elim (Bool-cases (mem_text h seen)) [
                  | inl old ↦ rw old (f, omega arith)
                  | inr new ↦ rw new (
                    LoopInv-concat seen result h f
                        (normalize_vk_call_hash_idem c.parse_url c.parse_url link h good).0 new,
                    omega (arith, length-append result (h ∷ [])),
                  )
                ])
              ])
        ])
      ]

  abbrev Done : List Text × Option GenerateError → Type 0
  Done out = IsFresh known out.0 × (length out.0 ≤ count) × (out.1 ≡ none → length out.0 ≡ count)

  generate_loop-Done :
      (rounds attempts : ℕ) (seen result : List Text)
      → LoopInv seen result
      → length result ≤ count
      → Done (generate_loop c count rounds attempts seen result)
  unfolding generate_loop
  generate_loop-Done zero attempts seen result f n = elim (Bool-cases (leb count (length result))) [
    | inl full ↦ rw full (f.fresh, n, λ e. ground arith)
    | inr short ↦ rw short (f.fresh, n, λ e. absurd (ground arith))
  ]
  generate_loop-Done (suc rounds) attempts seen result f n =
      elim (Bool-cases (leb count (length result))) [
        | inl full ↦ rw full (f.fresh, n, λ e. ground arith)
        | inr short ↦ rw short (
            next (generate_turn c attempts seen result)
              (generate_turn-TurnInv attempts seen result f) (ground arith)
              (λ seen' result' f' n'. generate_loop-Done rounds (attempts + 1) seen' result' f' n'))
      ]
    where
      next :
          (t : Turn)
          → TurnInv result t
          → length result < count
          → ((seen' result' : List Text)
              → LoopInv seen' result'
              → length result' ≤ count
              → Done (generate_loop c count rounds (attempts + 1) seen' result'))
          → Done (elim t [
            | stop e ↦ (result, e)
            | go_on seen' result' ↦ generate_loop c count rounds (attempts + 1) seen' result'
          ])
      next (stop e) h room rec = (f.fresh, n, λ z. absurd (h z))
      next (go_on seen' result') h room rec = rec seen' result' h.0 (omega (arith, h.1))

known_at_start :
    (parse_url : Text → Option Url) (existing : List Text) (count : ℕ) (c : VkClient)
    → LoopInv c count (known_hashes parse_url existing) (known_hashes parse_url existing) []
known_at_start parse_url existing count c = record {
  seen_is = λ t. unfold mem_text in ground arith;
  fresh = record { distinct = tt; hashes = tt; unknown = tt };
}

-- Whatever VK answers, the hashes returned are distinct and well formed, none of them is a normal
-- form of an existing one, and there are at most as many as asked for; without an error there are
-- exactly as many, and a count outside 1 to 4 is refused with nothing created.
pub generate_vk_hashes-IsFresh :
    (c : VkClient) (count : ℕ) (existing : List Text)
    → let out = generate_vk_hashes c count existing in
      IsFresh (known_hashes c.parse_url existing) out.0
      × (length out.0 ≤ count)
      × ((out.1 ≢ none) ⊎ ((length out.0 ≡ count) × (1 ≤ count) × (count ≤ 4)))
      × (((1 ≤ count) × (count ≤ 4)) ⊎ (out ≡ ([], some bad_count)))
unfolding generate_vk_hashes
generate_vk_hashes-IsFresh c count existing =
    let done =
      generate_loop-Done c count (known_hashes c.parse_url existing) (count + 4) 0
        (known_hashes c.parse_url existing) [] (known_at_start c.parse_url existing count c)
        (omega arith) in
    elim (Bool-cases (ltb count 1 || ltb max_vk_hashes count)) [
      | inl bad ↦ rw bad (
        record { distinct = tt; hashes = tt; unknown = tt },
        omega arith,
        inl (λ e. cc),
        inr refl,
      )
      | inr good ↦ rw good (
        done.0,
        done.1,
        elim (Option-cases
            (generate_loop c count (count + 4) 0 (known_hashes c.parse_url existing) []).1) [
              | inl e ↦ inr (done.2 e, ground arith, ground arith)
              | inr (why, e) ↦ inl (λ h. absurd (ground arith))
            ],
        inl (ground arith, ground arith),
      )
    ]
