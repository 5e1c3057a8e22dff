-- ===== src/Prelude/Text/Laws.antt =====
-- When trimming, cutting and searching leave a text as it is.
use mathlib.Core.List.{reverse, reverse-reverse, reverse-append}
use Prim.Native.Nat.{ℕ, zero, suc}
use mathlib.Core.Path.{◌≡◌, refl}
use mathlib.Core.Bool.{false, Bool, true, not, ◌&&◌}
use mathlib.Core.List.{[], ◌∷◌, ◌++◌, map}
use native.Mathlib.Omega.{arith}
use pwdtt.Prelude.Lists.{drop}
use pwdtt.Prelude.Text.{less_text, Text, trim_left_by, trim_by, before, all_chars, has_prefix}

pub all_chars-append :
    (p : ℕ → Bool) (s t : Text)
    → all_chars p s ≡ true
    → all_chars p t ≡ true
    → all_chars p (s ++ t) ≡ true
unfolding all_chars
all_chars-append p [] t hs ht = ht
all_chars-append p (c ∷ s) t hs ht = ground (arith, all_chars-append p s t)

all_chars-reverse :
    (p : ℕ → Bool) (s : Text) → all_chars p s ≡ true → all_chars p (reverse s) ≡ true
unfolding all_chars
all_chars-reverse p [] h = refl
all_chars-reverse p (c ∷ s) h =
    rw (reverse-append (c ∷ []) s) (
      all_chars-append p (reverse s) (c ∷ []) (all_chars-reverse p s (ground arith)) (ground arith))

-- A property of every character that follows from another.
pub all_chars_mono :
    (p q : ℕ → Bool)
    → ((c : ℕ) → p c ≡ true → q c ≡ true)
    → (s : Text) → all_chars p s ≡ true
    → all_chars q s ≡ true
unfolding all_chars
all_chars_mono p q h [] a = refl
all_chars_mono p q h (c ∷ s) a = ground (arith, h c, all_chars_mono p q h s)

trim_left_by_none :
    (p : ℕ → Bool) (s : Text) → all_chars (λ c. not (p c)) s ≡ true → trim_left_by p s ≡ s
unfolding trim_left_by all_chars
trim_left_by_none p [] h = refl
trim_left_by_none p (c ∷ s) h = ground arith

pub trim_by_none : (p : ℕ → Bool) (s : Text) → all_chars (λ c. not (p c)) s ≡ true → trim_by p s ≡ s
unfolding trim_by
trim_by_none p s h =
    rw (trim_left_by_none p s h, trim_left_by_none p (reverse s) (all_chars-reverse _ s h))
      (reverse-reverse s)

pub before_none : (p : ℕ → Bool) (s : Text) → all_chars (λ c. not (p c)) s ≡ true → before p s ≡ s
unfolding before all_chars
before_none p [] h = refl
before_none p (c ∷ s) h = ground (arith, before_none p s)

pub has_prefix_all :
    (q : ℕ → Bool) (pat s : Text)
    → all_chars q s ≡ true
    → has_prefix pat s ≡ true
    → all_chars q pat ≡ true
unfolding has_prefix all_chars
has_prefix_all q [] s h p = refl
has_prefix_all q (c ∷ pat) [] h p = absurd (ground arith)
has_prefix_all q (c ∷ pat) (d ∷ s) h p = ground (arith, has_prefix_all q pat s)

pub all_chars-map :
    (q : ℕ → Bool) (f : ℕ → ℕ) (s : Text)
    → all_chars (λ c. q (f c)) s ≡ true
    → all_chars q (map f s) ≡ true
unfolding all_chars
all_chars-map q f [] h = refl
all_chars-map q f (c ∷ s) h = ground (arith, all_chars-map q f s)

pub less_text_flips : (a b : Text) → less_text a b ≡ true → less_text b a ≡ false
unfolding less_text
less_text_flips [] [] h = refl
less_text_flips [] (y ∷ ys) h = refl
less_text_flips (x ∷ xs) [] h = absurd (ground arith)
less_text_flips (x ∷ xs) (y ∷ ys) h = ground (arith, less_text_flips xs ys)

pub less_text_trans :
    (a b c : Text) → less_text a b ≡ true → less_text b c ≡ true → less_text a c ≡ true
unfolding less_text
less_text_trans [] [] [] h k = absurd (ground arith)
less_text_trans [] (y ∷ ys) [] h k = absurd (ground arith)
less_text_trans (x ∷ xs) [] [] h k = absurd (ground arith)
less_text_trans (x ∷ xs) (y ∷ ys) [] h k = absurd (ground arith)
less_text_trans [] b (z ∷ zs) h k = refl
less_text_trans (x ∷ xs) [] (z ∷ zs) h k = absurd (ground arith)
less_text_trans (x ∷ xs) (y ∷ ys) (z ∷ zs) h k = ground (arith, less_text_trans xs ys zs)

pub less_text_total : (a b : Text) → less_text a b ≡ false → less_text b a ≡ false → a ≡ b
unfolding less_text
less_text_total [] [] h k = refl
less_text_total [] (y ∷ ys) h k = absurd (ground arith)
less_text_total (x ∷ xs) [] h k = absurd (ground arith)
less_text_total (x ∷ xs) (y ∷ ys) h k = ground (arith, less_text_total xs ys)

-- A piece of a text has characters of the text only.
module _ (q : ℕ → Bool) where
  all_chars-trim_left_by :
      (p : ℕ → Bool) (s : Text) → all_chars q s ≡ true → all_chars q (trim_left_by p s) ≡ true
  unfolding all_chars trim_left_by
  all_chars-trim_left_by p [] h = refl
  all_chars-trim_left_by p (c ∷ s) h = ground (arith, all_chars-trim_left_by p s)

  pub all_chars-trim_by :
      (p : ℕ → Bool) (s : Text) → all_chars q s ≡ true → all_chars q (trim_by p s) ≡ true
  unfolding trim_by
  all_chars-trim_by p s h =
      all_chars-reverse q _
        (all_chars-trim_left_by p _ (all_chars-reverse q _ (all_chars-trim_left_by p s h)))

  pub all_chars-drop : (n : ℕ) (s : Text) → all_chars q s ≡ true → all_chars q (drop n s) ≡ true
  unfolding all_chars
  all_chars-drop zero s h = h
  all_chars-drop (suc n) [] h = refl
  all_chars-drop (suc n) (c ∷ s) h = ground (arith, all_chars-drop n s)

  pub all_chars-before :
      (p : ℕ → Bool) (s : Text) → all_chars q s ≡ true → all_chars q (before p s) ≡ true
  unfolding all_chars before
  all_chars-before p [] h = refl
  all_chars-before p (c ∷ s) h = ground (arith, all_chars-before p s)

pub before_all : (p : ℕ → Bool) (s : Text) → all_chars (λ c. not (p c)) (before p s) ≡ true
unfolding all_chars before
before_all p [] = refl
before_all p (c ∷ s) = ground (arith, before_all p s)

pub all_chars-and :
    (p q : ℕ → Bool) (s : Text)
    → all_chars p s ≡ true
    → all_chars q s ≡ true
    → all_chars (λ c. p c && q c) s ≡ true
unfolding all_chars
all_chars-and p q [] h k = refl
all_chars-and p q (c ∷ s) h k = ground (arith, all_chars-and p q s)
