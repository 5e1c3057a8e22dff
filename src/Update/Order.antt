-- ===== src/Update/Order.antt =====
-- The comparison of semantic versions is an order, and "newer" is a strict one.
use pwdtt.Prelude.{
  ℕ, suc, ◌+◌, true, false, not, ◌&&◌, Bool-cases, Option-cases, List, [], ◌∷◌, some, length, ◌≡◌,
  refl, sym, ◌∙◌, arith, ap, inl, inr,
}
use pwdtt.Prelude.Text.{Text}
use pwdtt.Prelude.Text.Laws.{less_text_flips, less_text_trans, less_text_total}
use pwdtt.Update.{
  SemverIdentifier, SemanticVersion, Comparison, less, equal, greater, compare_int,
  compare_identifiers, or_else, compare_loop, compare_pre, compare_semantic_versions, is_greater,
  is_newer, parse_semantic_version,
}

abbrev flip : Comparison → Comparison
flip less = greater
flip equal = equal
flip greater = less

-- Swapping the arguments swaps the result, and "less" and "equal" behave as such.
pub record IsOrder {ℓ} {A : Type ℓ} (cmp : A → A → Comparison) : Type ℓ where
  flips : (a b : A) → cmp b a ≡ flip (cmp a b)
  trans : (a b c : A) → cmp a b ≡ less → cmp b c ≡ less → cmp a c ≡ less
  pub same : (a b c : A) → cmp a b ≡ equal → cmp a c ≡ cmp b c

compare_int-IsOrder : IsOrder compare_int
unfolding compare_int
compare_int-IsOrder = record {
  flips = λ a b. ground arith;
  trans = λ a b c h k. ground arith;
  same = λ a b c h. ground arith;
}

-- The left argument decides first.
module _ {ℓ} {A : Type ℓ} (f g : A → A → Comparison) (p : IsOrder f) (q : IsOrder g) where
  or_else-IsOrder : IsOrder (λ a b. or_else (f a b) (g a b))
  or_else-IsOrder = record {
    flips = λ a b. ground (arith, p.flips a b, q.flips a b);
    trans = λ a b c h k.
        ground (
          arith,
          p.trans a b c,
          p.same a b c,
          p.same b c a,
          p.flips a b,
          p.flips a c,
          q.trans a b c,
        );
    same = λ a b c h. ground (arith, p.same a b c, q.same a b c);
  }

compare_identifiers-IsOrder : IsOrder compare_identifiers
unfolding compare_identifiers compare_int
compare_identifiers-IsOrder = record {
  flips = λ a b. ground (arith, less_text_flips a.value b.value, less_text_flips b.value a.value);
  trans = λ a b c h k. ground (arith, less_text_trans a.value b.value c.value);
  same = λ a b c h. ground (arith, less_text_total a.value b.value);
}

-- The comparison of two lists without the test for empty ones: it ends with the shorter list.
unfoldable compare_lists : List SemverIdentifier → List SemverIdentifier → Comparison
compare_lists [] [] = equal
compare_lists [] (y ∷ ys) = less
compare_lists (x ∷ xs) [] = greater
compare_lists (x ∷ xs) (y ∷ ys) = or_else (compare_identifiers x y) (compare_lists xs ys)

compare_loop-compare_lists :
    (i n k : ℕ) (xs ys : List SemverIdentifier)
    → n ≡ i + length xs
    → k ≡ i + length ys
    → compare_loop n k xs ys ≡ compare_lists xs ys
unfolding compare_loop compare_lists compare_int
compare_loop-compare_lists i n k [] [] p q = ground arith
compare_loop-compare_lists i n k [] (y ∷ ys) p q = ground arith
compare_loop-compare_lists i n k (x ∷ xs) [] p q = ground arith
compare_loop-compare_lists i n k (x ∷ xs) (y ∷ ys) p q =
    ap (or_else (compare_identifiers x y))
      (compare_loop-compare_lists (suc i) n k xs ys (omega arith) (omega arith))

compare_lists-flips : (a b : List SemverIdentifier) → compare_lists b a ≡ flip (compare_lists a b)
unfolding compare_lists
compare_lists-flips [] [] = refl
compare_lists-flips [] (y ∷ ys) = refl
compare_lists-flips (x ∷ xs) [] = refl
compare_lists-flips (x ∷ xs) (y ∷ ys) =
    ground (arith, compare_identifiers-IsOrder.flips x y, compare_lists-flips xs ys)

compare_lists-same :
    (a b c : List SemverIdentifier)
    → compare_lists a b ≡ equal
    → compare_lists a c ≡ compare_lists b c
unfolding compare_lists
compare_lists-same [] [] c h = refl
compare_lists-same [] (y ∷ ys) c h = absurd (ground arith)
compare_lists-same (x ∷ xs) [] c h = absurd (ground arith)
compare_lists-same (x ∷ xs) (y ∷ ys) [] h = refl
compare_lists-same (x ∷ xs) (y ∷ ys) (z ∷ zs) h =
    ground (arith, compare_identifiers-IsOrder.same x y z, compare_lists-same xs ys zs)

compare_lists_trans :
    (a b c : List SemverIdentifier)
    → compare_lists a b ≡ less
    → compare_lists b c ≡ less
    → compare_lists a c ≡ less
unfolding compare_lists
compare_lists_trans [] [] c h k = absurd (ground arith)
compare_lists_trans [] (y ∷ ys) [] h k = absurd (ground arith)
compare_lists_trans [] (y ∷ ys) (z ∷ zs) h k = refl
compare_lists_trans (x ∷ xs) [] c h k = absurd (ground arith)
compare_lists_trans (x ∷ xs) (y ∷ ys) [] h k = absurd (ground arith)
compare_lists_trans (x ∷ xs) (y ∷ ys) (z ∷ zs) h k =
    let o = compare_identifiers-IsOrder in
    ground (
      arith,
      o.trans x y z,
      o.same x y z,
      o.same y z x,
      o.flips x y,
      o.flips x z,
      compare_lists_trans xs ys zs,
    )

compare_pre-lists :
    (x y : SemverIdentifier) (xs ys : List SemverIdentifier)
    → compare_pre (x ∷ xs) (y ∷ ys) ≡ compare_lists (x ∷ xs) (y ∷ ys)
unfolding compare_pre
compare_pre-lists x y xs ys =
    compare_loop-compare_lists 0 (length (x ∷ xs)) (length (y ∷ ys)) (x ∷ xs) (y ∷ ys) (omega arith)
      (omega arith)

compare_pre-flips : (a b : List SemverIdentifier) → compare_pre b a ≡ flip (compare_pre a b)
unfolding compare_pre
compare_pre-flips [] [] = refl
compare_pre-flips [] (y ∷ ys) = refl
compare_pre-flips (x ∷ xs) [] = refl
compare_pre-flips (x ∷ xs) (y ∷ ys) =
    rw (compare_pre-lists x y xs ys, compare_pre-lists y x ys xs)
      (compare_lists-flips (x ∷ xs) (y ∷ ys))

compare_pre-same :
    (a b c : List SemverIdentifier) → compare_pre a b ≡ equal → compare_pre a c ≡ compare_pre b c
compare_pre-same [] [] c h = refl
compare_pre-same [] (y ∷ ys) c h = absurd (unfold compare_pre in ground arith)
compare_pre-same (x ∷ xs) [] c h = absurd (unfold compare_pre in ground arith)
compare_pre-same (x ∷ xs) (y ∷ ys) [] h = unfold compare_pre in refl
compare_pre-same (x ∷ xs) (y ∷ ys) (z ∷ zs) h =
    rw (compare_pre-lists x z xs zs, compare_pre-lists y z ys zs)
      (compare_lists-same (x ∷ xs) (y ∷ ys) (z ∷ zs) (sym (compare_pre-lists x y xs ys) ∙ h))

compare_pre_trans :
    (a b c : List SemverIdentifier)
    → compare_pre a b ≡ less
    → compare_pre b c ≡ less
    → compare_pre a c ≡ less
compare_pre_trans [] [] c h k = absurd (unfold compare_pre in ground arith)
compare_pre_trans [] (y ∷ ys) c h k = absurd (unfold compare_pre in ground arith)
compare_pre_trans (x ∷ xs) b [] h k = unfold compare_pre in refl
compare_pre_trans (x ∷ xs) [] (z ∷ zs) h k = absurd (unfold compare_pre in ground arith)
compare_pre_trans (x ∷ xs) (y ∷ ys) (z ∷ zs) h k = rw (compare_pre-lists x z xs zs) (
    compare_lists_trans (x ∷ xs) (y ∷ ys) (z ∷ zs) (sym (compare_pre-lists x y xs ys) ∙ h)
      (sym (compare_pre-lists y z ys zs) ∙ k))

compare_pre-IsOrder : IsOrder compare_pre
compare_pre-IsOrder = record {
  flips = compare_pre-flips;
  trans = compare_pre_trans;
  same = compare_pre-same;
}

-- An order on what a function gives.
on-IsOrder {ℓ κ} :
    {A : Type ℓ} {B : Type κ} (f : A → B) (cmp : B → B → Comparison)
    → IsOrder cmp
    → IsOrder (λ a b. cmp (f a) (f b))
on-IsOrder f cmp o = record {
  flips = λ a b. o.flips (f a) (f b);
  trans = λ a b c. o.trans (f a) (f b) (f c);
  same = λ a b c. o.same (f a) (f b) (f c);
}

-- The comparison of semantic versions is a total order up to "equal": swapping the versions swaps
-- the result, "less" is transitive, and equal versions compare alike with every other.
pub compare_semantic_versions-IsOrder : IsOrder compare_semantic_versions
unfolding compare_semantic_versions
compare_semantic_versions-IsOrder =
    let by = λ (f : SemanticVersion → ℕ). on-IsOrder f compare_int compare_int-IsOrder in
    or_else-IsOrder _ _ (by (λ v. v.major)) (
      or_else-IsOrder _ _ (by (λ v. v.minor)) (
        or_else-IsOrder _ _ (by (λ v. v.patch))
          (on-IsOrder (λ v. v.pre) compare_pre compare_pre-IsOrder)))

-- What a version that is newer than another shows.
is_newer_parsed :
    (a b : Text)
    → is_newer a b ≡ true
    → (v : SemanticVersion) × (w : SemanticVersion) × (parse_semantic_version a ≡ some v)
      × (parse_semantic_version b ≡ some w)
      × (compare_semantic_versions w v ≡ less)
unfolding is_newer
is_newer_parsed a b h = elim (Option-cases (parse_semantic_version a)) [
  | inl p ↦ absurd (ground arith)
  | inr (v, p) ↦ elim (Option-cases (parse_semantic_version b)) [
    | inl q ↦ absurd (ground arith)
    | inr (w, q) ↦ (v, w, p, q, ground (arith, compare_semantic_versions-IsOrder.flips v w))
  ]
]

is_newer_less :
    (a b : Text) (v w : SemanticVersion)
    → parse_semantic_version a ≡ some v
    → parse_semantic_version b ≡ some w
    → is_newer a b ≡ is_greater (flip (compare_semantic_versions w v))
unfolding is_newer
is_newer_less a b v w p q = ground (arith, compare_semantic_versions-IsOrder.flips w v)

-- "Newer" is a strict order: no text is newer than one that is newer than it, so none is newer than
-- itself, and a text newer than one that is newer than a third is newer than the third. A text that
-- is no version is never newer and never older.
pub is_newer_strict :
    (a b : Text)
    → is_newer a b ≡ true
    → (is_newer b a ≡ false)
      × ((c : Text) → (is_newer b c && not (is_newer a c)) ≡ false)
      × (v : SemanticVersion) × (w : SemanticVersion) × (parse_semantic_version a ≡ some v)
      × (parse_semantic_version b ≡ some w)
is_newer_strict a b h =
    let (v, w, p, q, l) = is_newer_parsed a b h in
    let o = compare_semantic_versions-IsOrder in
    (
      ground (arith, is_newer_less b a w v q p, o.flips w v),
      (λ c. elim (Bool-cases (is_newer b c)) [
        | inr older ↦ rw older refl
        | inl newer ↦
            let (w', u, q', r, k) = is_newer_parsed b c newer in
            let same : w' ≡ w = ground arith in
            ground (arith, is_newer_less a c v u p r, o.trans u w v (rw same at k) l)
      ]),
      v,
      w,
      p,
      q,
    )
