-- ===== src/Ebuild/Conditionals/Agree.antt =====
-- Lists of values that say the same for a group of a class.
use pkgcore.Prelude.{
  Bool, true, false, ◌&&◌, ◌≡◌, refl, ap, sym, ◌∙◌, List, [], ◌∷◌, ◌++◌, is_empty, any, all,
  any-append, all-append, arith,
}
use pkgcore.Ebuild.Conditionals.{
  Class, all_of, any_of, just_one_of, at_most_one_of, Node, element, conditional, group, Nodes, nil,
  cons,
}
use pkgcore.Ebuild.Conditionals.Wanted.{itself, count_true, class_value}

-- The values `xs` say for a group of the class what `bs` say.
abbrev pub Says : Class → List Bool → List Bool → Type 0
Says all_of xs bs = all itself xs ≡ all itself bs
Says any_of xs bs = any itself xs ≡ any itself bs
Says _ xs bs = xs ≡ bs

pub record Agree (cls : Class) (xs bs : List Bool) : Type 0 where
  pub empty : is_empty xs ≡ is_empty bs
  pub says : Says cls xs bs

is_empty_both : {A : Type 0} (xs ys : List A) → is_empty (xs ++ ys) ≡ (is_empty xs && is_empty ys)
is_empty_both [] ys = refl
is_empty_both (x ∷ xs) ys = refl

pub Says-append :
    (cls : Class) (xs ys bs cs : List Bool)
    → Says cls xs bs
    → Says cls ys cs
    → Says cls (xs ++ ys) (bs ++ cs)
Says-append all_of xs ys bs cs h k =
    ground (arith, h, k, all-append itself xs ys, all-append itself bs cs)
Says-append any_of xs ys bs cs h k =
    ground (arith, h, k, any-append itself xs ys, any-append itself bs cs)
Says-append just_one_of xs ys bs cs h k = cc
Says-append at_most_one_of xs ys bs cs h k = cc

pub Agree-append :
    (cls : Class) (xs ys bs cs : List Bool)
    → Agree cls xs bs
    → Agree cls ys cs
    → Agree cls (xs ++ ys) (bs ++ cs)
Agree-append cls xs ys bs cs h k = record {
  empty = is_empty_both xs ys ∙ cc (h.empty, k.empty) ∙ sym (is_empty_both bs cs);
  says = Says-append cls xs ys bs cs h.says k.says;
}

-- A single value on each side says the same for every class.
pub Agree_one : (cls : Class) (v w : Bool) → v ≡ w → Agree cls (v ∷ []) (w ∷ [])
Agree_one all_of v w h = record { empty = refl; says = cc }
Agree_one any_of v w h = record { empty = refl; says = cc }
Agree_one just_one_of v w h = record { empty = refl; says = cc }
Agree_one at_most_one_of v w h = record { empty = refl; says = cc }

pub Agree_nothing : (cls : Class) → Agree cls [] []
Agree_nothing all_of = record { empty = refl; says = refl }
Agree_nothing any_of = record { empty = refl; says = refl }
Agree_nothing just_one_of = record { empty = refl; says = refl }
Agree_nothing at_most_one_of = record { empty = refl; says = refl }

pub class_value-Says :
    (cls : Class) (xs bs : List Bool) → Says cls xs bs → class_value cls xs ≡ class_value cls bs
unfolding class_value
class_value-Says all_of xs bs h = h
class_value-Says any_of xs bs h = h
class_value-Says just_one_of xs bs h = ap (class_value just_one_of) h
class_value-Says at_most_one_of xs bs h = ap (class_value at_most_one_of) h

-- No AtMostOne stands in the tree.
unfoldable mutual
  pub lacks_at_most : {E : Type 0} → Node E → Bool
  lacks_at_most (element e) = true
  lacks_at_most (conditional negate flag payload) = all_lack_at_most payload
  lacks_at_most (group at_most_one_of nodes) = false
  lacks_at_most (group cls nodes) = all_lack_at_most nodes

  pub all_lack_at_most : {E : Type 0} → Nodes E → Bool
  all_lack_at_most nil = true
  all_lack_at_most (cons n ns) = lacks_at_most n && all_lack_at_most ns

abbrev pub is_at_most : Class → Bool
is_at_most at_most_one_of = true
is_at_most _ = false

one_true : (v : Bool) → v ≡ class_value just_one_of (v ∷ [])
unfolding class_value count_true
one_true true = refl
one_true false = refl

pub single_value :
    (cls : Class) (v : Bool) (bs : List Bool)
    → is_at_most cls ≡ false
    → Says cls (v ∷ []) bs
    → v ≡ class_value cls bs
unfolding class_value count_true
single_value all_of v bs h k = ground (arith, k)
single_value any_of v bs h k = ground (arith, k)
single_value just_one_of v bs h k = one_true v ∙ ap (class_value just_one_of) k
single_value at_most_one_of v bs h k = cc
