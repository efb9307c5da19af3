-- ===== src/Ebuild/Cmp/Laws.antt =====
-- Comparisons that are total preorders, and the ways to build one from others.
use mathlib.Core.Path.{fun_ext}
use pkgcore.Prelude.{◌≡◌, ◌≢◌, refl, ap, sym, ◌∙◌, List, [], ◌∷◌, arith, ltb}
use pkgcore.Prelude.Int.{ltb_ℤ}
use pkgcore.Prelude.Text.{Text, text_ltb}
use pkgcore.Ebuild.Cmp.{Sign, less, equal, greater, three_way, then_by, flip}

-- The converse comparison has the flipped sign, equal values compare alike, and `less` composes.
pub record IsTotalPreorder {A : Type 0} (compare : A → A → Sign) : Type 0 where
  pub converse : (a b : A) → compare b a ≡ flip (compare a b)
  pub congruent : (a b c : A) → compare a b ≡ equal → compare a c ≡ compare b c
  pub transitive : (a b c : A) → compare a b ≡ less → compare b c ≡ less → compare a c ≡ less

pub number-IsTotalPreorder : IsTotalPreorder (three_way ltb)
number-IsTotalPreorder = record {
  converse = λ a b. ground arith;
  congruent = λ a b c h. ground arith;
  transitive = λ a b c h k. ground arith;
}

pub int-IsTotalPreorder : IsTotalPreorder (three_way ltb_ℤ)
int-IsTotalPreorder = record {
  converse = λ a b. ground arith;
  congruent = λ a b c h. ground arith;
  transitive = λ a b c h k. ground arith;
}

-- Texts compare as the lists of their code points.
unfoldable pub text_compare : Text → Text → Sign
text_compare [] [] = equal
text_compare [] (d ∷ t) = less
text_compare (c ∷ s) [] = greater
text_compare (c ∷ s) (d ∷ t) = then_by (three_way ltb c d) (text_compare s t)

pub three_way-text_ltb : (s t : Text) → three_way text_ltb s t ≡ text_compare s t
unfolding text_compare
three_way-text_ltb [] [] = refl
three_way-text_ltb [] (d ∷ t) = refl
three_way-text_ltb (c ∷ s) [] = refl
three_way-text_ltb (c ∷ s) (d ∷ t) = ground (arith, three_way-text_ltb s t)

module _ {A : Type 0} {c : A → A → Sign} (p : IsTotalPreorder c) where
  pub compare_refl : (a : A) → c a a ≡ equal
  compare_refl a = ground (arith, p.converse a a)

  pub compare_eq : (a b : A) → a ≡ b → c a b ≡ equal
  compare_eq a b e = ap (c a) (sym e) ∙ compare_refl a

  pub less_then_le : (a b d : A) → c a b ≡ less → c b d ≢ greater → c a d ≡ less
  less_then_le a b d h k =
      ground (arith, p.transitive a b d, p.congruent b d a, p.converse a b, p.converse a d)

  pub le_then_le : (a b d : A) → c a b ≢ greater → c b d ≢ greater → c a d ≢ greater
  le_then_le a b d h k e = ground (
    arith,
    p.transitive a b d,
    p.congruent a b d,
    p.congruent b d a,
    p.converse a b,
    p.converse a d,
  )

  pub le_then_less : (a b d : A) → c a b ≢ greater → c b d ≡ less → c a d ≡ less
  le_then_less a b d h k =
      ground (arith, p.transitive a b d, p.congruent a b d, p.converse a b, p.converse a d)

  -- Values below one another are equal.
  pub le_antisym : (a b : A) → c a b ≢ greater → c b a ≢ greater → c a b ≡ equal
  le_antisym a b h k = ground (arith, p.converse a b)

  pub le_of_eq : (a b : A) → c a b ≡ equal → c b a ≢ greater
  le_of_eq a b h k = ground (arith, p.converse a b)

module _ {A : Type 0} where
  -- Compare by one key, then by another.
  abbrev pub both : (A → A → Sign) → (A → A → Sign) → A → A → Sign
  both c d a b = then_by (c a b) (d a b)

  pub both-IsTotalPreorder :
      {c d : A → A → Sign} → IsTotalPreorder c → IsTotalPreorder d → IsTotalPreorder (both c d)
  both-IsTotalPreorder {c} {d} p q = record {
    converse = λ x y. ground (arith, p.converse x y, q.converse x y);
    congruent = λ x y z h. ground (arith, p.congruent x y z, q.congruent x y z);
    transitive = λ x y z h k. ground (
      arith,
      p.congruent x y z,
      p.congruent y z x,
      p.transitive x y z,
      q.transitive x y z,
      p.converse x y,
      p.converse y z,
      p.converse x z,
    );
  }

  -- Lists compare item by item. Where a list ends first, the sign is that of `end` at the other's
  -- next item.
  unfoldable pub list_compare : (A → Sign) → (A → A → Sign) → List A → List A → Sign
  list_compare end c [] [] = equal
  list_compare end c [] (y ∷ ys) = end y
  list_compare end c (x ∷ xs) [] = flip (end x)
  list_compare end c (x ∷ xs) (y ∷ ys) = then_by (c x y) (list_compare end c xs ys)

  -- The end of a list is at a place of its own in the order of the items.
  pub record IsEnd (end : A → Sign) (c : A → A → Sign) : Type 0 where
    pub apart : (x : A) → end x ≢ equal
    pub congruent : (x y : A) → c x y ≡ equal → end x ≡ end y
    pub upward : (x y : A) → end x ≡ less → c x y ≡ less → end y ≡ less
    pub downward : (x y : A) → end y ≡ greater → c x y ≡ less → end x ≡ greater
    pub across : (x y : A) → end x ≡ greater → end y ≡ less → c x y ≡ less

  module _ {end : A → Sign} {c : A → A → Sign} (e : IsEnd end c) (p : IsTotalPreorder c) where
    list-converse : (xs ys : List A) → list_compare end c ys xs ≡ flip (list_compare end c xs ys)
    unfolding list_compare
    list-converse [] [] = refl
    list-converse [] (y ∷ ys) = refl
    list-converse (x ∷ xs) [] = ground arith
    list-converse (x ∷ xs) (y ∷ ys) = ground (arith, p.converse x y, list-converse xs ys)

    list-congruent :
        (xs ys zs : List A)
        → list_compare end c xs ys ≡ equal
        → list_compare end c xs zs ≡ list_compare end c ys zs
    unfolding list_compare
    list-congruent [] [] zs h = refl
    list-congruent [] (y ∷ ys) zs h = absurd (e.apart y h)
    list-congruent (x ∷ xs) [] zs h = ground (arith, e.apart x)
    list-congruent (x ∷ xs) (y ∷ ys) [] h = ground (arith, e.congruent x y)
    list-congruent (x ∷ xs) (y ∷ ys) (z ∷ zs) h =
        ground (arith, p.congruent x y z, list-congruent xs ys zs)

    list-transitive :
        (xs ys zs : List A)
        → list_compare end c xs ys ≡ less
        → list_compare end c ys zs ≡ less
        → list_compare end c xs zs ≡ less
    unfolding list_compare
    list-transitive [] [] zs h k = cc
    list-transitive [] (y ∷ ys) [] h k = ground arith
    list-transitive [] (y ∷ ys) (z ∷ zs) h k = ground (arith, e.congruent y z, e.upward y z)
    list-transitive (x ∷ xs) [] [] h k = cc
    list-transitive (x ∷ xs) [] (z ∷ zs) h k = ground (arith, e.across x z)
    list-transitive (x ∷ xs) (y ∷ ys) [] h k = ground (arith, e.congruent x y, e.downward x y)
    list-transitive (x ∷ xs) (y ∷ ys) (z ∷ zs) h k = ground (
      arith,
      p.congruent x y z,
      p.congruent y z x,
      p.transitive x y z,
      list-transitive xs ys zs,
      p.converse x y,
      p.converse y z,
      p.converse x z,
    )

    pub list-IsTotalPreorder : IsTotalPreorder (list_compare end c)
    list-IsTotalPreorder = record {
      converse = list-converse;
      congruent = list-congruent;
      transitive = list-transitive;
    }

module _ {A B : Type 0} (f : A → B) {c : B → B → Sign} (p : IsTotalPreorder c) where
  pub on-IsTotalPreorder : IsTotalPreorder (λ a b. c (f a) (f b))
  on-IsTotalPreorder = record {
    converse = λ a b. p.converse (f a) (f b);
    congruent = λ a b d. p.congruent (f a) (f b) (f d);
    transitive = λ a b d. p.transitive (f a) (f b) (f d);
  }

text-list_compare : (s t : Text) → text_compare s t ≡ list_compare (λ c. less) (three_way ltb) s t
unfolding text_compare list_compare
text-list_compare [] [] = refl
text-list_compare [] (d ∷ t) = refl
text-list_compare (c ∷ s) [] = refl
text-list_compare (c ∷ s) (d ∷ t) = ap (then_by (three_way ltb c d)) (text-list_compare s t)

-- A list that ends first is the smaller one.
pub less-IsEnd : {A : Type 0} (c : A → A → Sign) → IsEnd (λ x. less) c
less-IsEnd c = record {
  apart = λ x h. cc;
  congruent = λ x y h. refl;
  upward = λ x y h k. refl;
  downward = λ x y h k. cc;
  across = λ x y h k. cc;
}

pub text-IsTotalPreorder : IsTotalPreorder text_compare
text-IsTotalPreorder =
    rw (fun_ext λ s. fun_ext λ t. text-list_compare s t)
      (list-IsTotalPreorder (less-IsEnd (three_way ltb)) number-IsTotalPreorder)
