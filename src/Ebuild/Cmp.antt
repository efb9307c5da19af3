-- ===== src/Ebuild/Cmp.antt =====
-- The three-way comparison `cmp` of snakeoil.compatibility, which the program imports.
pub mod Laws
use pkgcore.Prelude.{Bool, ◌≡◌, if◌then◌else◌}

-- The integers -1, 0 and 1.
pub data Sign : Type 0 where
  less equal greater : Sign

abbrev pub three_way {ℓ} : {A : Type ℓ} → (A → A → Bool) → A → A → Sign
three_way lt a b = if lt a b then less else if lt b a then greater else equal

-- `cmp` is third-party code: it compares by the `<` of its arguments' class.
pub record Snakeoil : Type 1 where
  pub cmp : {A : Type 0} → (A → A → Bool) → A → A → Sign
  pub cmp_lem : {A : Type 0} (lt : A → A → Bool) (a b : A) → cmp lt a b ≡ three_way lt a b

-- `if c: return c`, and the code behind it.
abbrev pub then_by : Sign → Sign → Sign
then_by less rest = less
then_by equal rest = rest
then_by greater rest = greater

abbrev pub flip : Sign → Sign
flip less = greater
flip equal = equal
flip greater = less
