-- ===== src/Prelude/Text/Laws.antt =====
-- Laws of the text methods: equality, splitting and joining, digits.
use pkgcore.Prelude.Lists.{all, all-append}
use pkgcore.Prelude.Tests.{◌==◌, ==_iff, Bool-cases, and_left, and_right}
use Prim.Native.Nat.{ℕ}
use mathlib.Core.Path.{◌≡◌, refl, ap, ◌∙◌}
use mathlib.Core.Logic.{◌⊎◌, inl, inr}
use mathlib.Core.Bool.{Bool, true, false, not}
use mathlib.Core.List.{List, [], ◌∷◌, ◌++◌}
use mathlib.Core.Option.{some}
use native.Mathlib.Omega.{arith}
use pkgcore.Prelude.Text.{
  Text, text_eq, is_digit, all_digits, isdigit, split, join, rstrip, rstrip_push, int, digits_value,
}

pub text_eq_sound : (s t : Text) → text_eq s t ≡ true → s ≡ t
text_eq_sound [] [] h = refl
text_eq_sound [] (d ∷ t) h = cc
text_eq_sound (c ∷ s) [] h = cc
text_eq_sound (c ∷ s) (d ∷ t) h = cc (
  (==_iff c d).0 (and_left (c == d) (text_eq s t) h),
  text_eq_sound s t (and_right (c == d) (text_eq s t) h),
)

pub text_eq_refl : (s : Text) → text_eq s s ≡ true
text_eq_refl [] = refl
text_eq_refl (c ∷ s) = ground (arith, text_eq_refl s)

-- No separator stands in the text.
abbrev pub lacks : ℕ → Text → Bool
lacks sep = all (λ c. not (c == sep))

module _ (sep : ℕ) where
  split-lacks : (s : Text) → lacks sep s ≡ true → split sep s ≡ s ∷ []
  unfolding split
  split-lacks [] h = refl
  split-lacks (c ∷ s) h = ground (arith, split-lacks s)

  split-append :
      (s rest : Text) → lacks sep s ≡ true → split sep (s ++ sep ∷ rest) ≡ s ∷ split sep rest
  unfolding split
  split-append [] rest h = ground arith
  split-append (c ∷ s) rest h = ground (arith, split-append s rest)

  -- Splitting what was joined gives the parts back, if there is one and none holds the separator.
  pub split-join :
      (s : Text) (ps : List Text)
      → all (lacks sep) (s ∷ ps) ≡ true
      → split sep (join sep (s ∷ ps)) ≡ s ∷ ps
  unfolding join
  split-join s [] h = split-lacks s (and_left _ _ h)
  split-join s (q ∷ ps) h =
      split-append s (join sep (q ∷ ps)) (and_left (lacks sep s) _ h)
      ∙ ap (λ r. s ∷ r) (split-join q ps (and_right (lacks sep s) _ h))

  -- What holds of the characters of the parts and of the separator holds of the joined text.
  pub all-join :
      (q : ℕ → Bool) (ps : List Text)
      → q sep ≡ true
      → all (all q) ps ≡ true
      → all q (join sep ps) ≡ true
  unfolding join
  all-join q [] e h = refl
  all-join q (p ∷ []) e h = and_left _ _ h
  all-join q (p ∷ r ∷ ps) e h = ground (
    arith,
    all-append q p (sep ∷ join sep (r ∷ ps)),
    all-join q (r ∷ ps) e (and_right (all q p) _ h),
  )

-- What is left after stripping is nothing, or begins as before.
rstrip_push_cases :
    (c d : ℕ) (s : Text)
    → (rstrip_push c d s ≡ []) × (d ≡ c) ⊎ ((t : Text) × (rstrip_push c d s ≡ d ∷ t))
rstrip_push_cases c d [] = elim (Bool-cases (d == c)) [
  | inl e ↦ inl (rw e, (==_iff d c).0 e)
  | inr e ↦ inr ([], rw e)
]
rstrip_push_cases c d (e ∷ t) = inr (e ∷ t, refl)

pub rstrip_cases :
    (c d : ℕ) (s : Text)
    → (rstrip c (d ∷ s) ≡ []) × (d ≡ c) ⊎ ((t : Text) × (rstrip c (d ∷ s) ≡ d ∷ t))
unfolding rstrip
rstrip_cases c d s = rstrip_push_cases c d (rstrip c s)

pub all_digits-lacks :
    (sep : ℕ) (s : Text) → is_digit sep ≡ false → all_digits s ≡ true → lacks sep s ≡ true
all_digits-lacks sep [] n h = refl
all_digits-lacks sep (c ∷ s) n h = ground (arith, all_digits-lacks sep s)

pub int-digits : (s : Text) → isdigit s ≡ true → int s ≡ some (digits_value 0 s)
unfolding int
int-digits s h = rw h

pub text_eq_sym : (s t : Text) → text_eq s t ≡ text_eq t s
text_eq_sym [] [] = refl
text_eq_sym [] (d ∷ t) = refl
text_eq_sym (c ∷ s) [] = refl
text_eq_sym (c ∷ s) (d ∷ t) = ground (arith, text_eq_sym s t)
