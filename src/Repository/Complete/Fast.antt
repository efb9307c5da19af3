-- ===== src/Repository/Complete/Fast.antt =====
-- `_fast_identify_candidates` of src/pkgcore/repository/prototype.py lists every key that what is
-- said of categories and of names allows.
use pkgcore.Prelude.{
  Bool, true, false, not, ◌&&◌, ◌||◌, ◌≡◌, refl, sym, ap, ◌∙◌, List, [], ◌∷◌, arith, all, is_empty,
  Option, if◌then◌else◌, Bool-cases, inl, inr,
}
use pkgcore.Prelude.Text.{Text, text_eq, starts_with}
use pkgcore.Prelude.Text.Laws.{text_eq_sound, text_eq_sym}
use pkgcore.Repository.{
  Value, exact, other_match, is_in, containment_match, Tree, Sorter, sort_names, contains,
  packages_get, exacts, inexacts, hit, lower_text, cat_filter, package_filter, keep_if,
}
use pkgcore.Repository.Search.{cats_of, packages_of, is_iter, candidates_of, fast_candidates}
use pkgcore.Repository.Members.{contains_holds, contains-keep_if, listed, listed-pairs}
use pkgcore.Repository.Collected.{plain_value}
use pkgcore.Repository.Picked.{allows}
use pkgcore.Repository.Complete.{KeepsMembers, listed-version_keys}

starts_with_self : (s : Text) → starts_with s s ≡ true
unfolding starts_with
starts_with_self [] = refl
starts_with_self (c ∷ s) = ground (arith, starts_with_self s)

is_in_self : (s : Text) → is_in s s ≡ true
unfolding is_in
is_in_self [] = refl
is_in_self (c ∷ s) = ground (arith, starts_with_self (c ∷ s))

containment_match-contains :
    (es : List Text) (x : Text) → contains es x ≡ true → containment_match es x ≡ true
unfolding containment_match
containment_match-contains es x h = contains_holds (λ f. is_in f x) x es h (is_in_self x)

-- Of a category, or of a name: the set of exact values and the other values leave x possible.
abbrev pub leaves : Bool → List Text → List Value → Text → Bool
leaves negate es vs x = (is_empty es && is_empty vs) || (contains es x || hit negate vs x)

-- Where the values are negated, the exact ones have been dropped.
abbrev pub dropped : Bool → List Text → Bool
dropped negate es = not negate || is_empty es

hit-containment :
    (negate : Bool) (e : Text) (es : List Text) (vs : List Value) (x : Text)
    → leaves negate (e ∷ es) vs x ≡ true
    → dropped negate (e ∷ es) ≡ true
    → hit false (other_match (containment_match (e ∷ es)) ∷ vs) x ≡ true
hit-containment true e es vs x h k = ground (arith, k)
hit-containment false e es vs x h k = elim (Bool-cases (contains (e ∷ es) x)) [
  | inl m ↦ ground (arith, containment_match-contains (e ∷ es) x m)
  | inr m ↦ ground (arith, m, h)
]

exacts_again :
    (s : Bool) (e : Text) (vs : List Value) (x : Text)
    → (text_eq e x || contains (exacts vs) x) ≡ true
    → contains (exacts (exact s false e ∷ vs)) x ≡ true
unfolding exacts
exacts_again s e vs x h = elim (Bool-cases (contains (exacts vs) e)) [
  | inr k ↦ ground (arith, h, k, text_eq_sym e x)
  | inl k ↦ elim (Bool-cases (text_eq e x)) [
    | inl m ↦ rw k (sym (ap (contains (exacts vs)) (text_eq_sound e x m)) ∙ k)
    | inr m ↦ rw k (ground (arith, h, m))
  ]
]

exacts-or-inexacts :
    (vs : List Value) (x : Text)
    → all plain_value vs ≡ true
    → hit false vs x ≡ true
    → (contains (exacts vs) x || hit false (inexacts vs) x) ≡ true
unfolding inexacts exacts
exacts-or-inexacts [] x v h = ground (arith, h)
exacts-or-inexacts (exact false false e ∷ vs) x v h = ground (arith, v)
exacts-or-inexacts (exact true false e ∷ vs) x v h = elim (Bool-cases (text_eq e x)) [
  | inl m ↦ ground (arith, exacts_again true e vs x (ground (arith, m)))
  | inr m ↦
      let rest = exacts-or-inexacts vs x v (ground (arith, h, m)) in
      elim (Bool-cases (contains (exacts vs) x)) [
        | inl k ↦ ground (arith, exacts_again true e vs x (ground (arith, k)))
        | inr k ↦ ground (arith, rest, k)
      ]
]
exacts-or-inexacts (exact true true e ∷ vs) x v h = elim (Bool-cases (text_eq e x)) [
  | inl m ↦ ground (arith, exacts-or-inexacts vs x v (ground (arith, h, m)))
  | inr m ↦ ground (arith, m)
]
exacts-or-inexacts (exact false true e ∷ vs) x v h = elim (Bool-cases (text_eq e (lower_text x))) [
  | inl m ↦ ground (arith, exacts-or-inexacts vs x v (ground (arith, h, m)))
  | inr m ↦ ground (arith, m)
]
exacts-or-inexacts (other_match f ∷ vs) x v h = elim (Bool-cases (f x)) [
  | inl m ↦ ground (arith, m)
  | inr m ↦ ground (arith, exacts-or-inexacts vs x v (ground (arith, h, m)))
]

pub leaves-allows :
    (vs : List Value) (x : Text)
    → all plain_value vs ≡ true
    → allows vs x ≡ true
    → leaves false (exacts vs) (inexacts vs) x ≡ true
unfolding inexacts exacts
leaves-allows [] x k h = refl
leaves-allows (v ∷ vs) x k h = ground (arith, exacts-or-inexacts (v ∷ vs) x k h)

module _ (sorter : Option Sorter) (keeps : KeepsMembers sorter) (t : Tree) (c p : Text)
    (hc : contains t.categories c ≡ true) (hp : contains (packages_get t c) p ≡ true) where
  contains-cat_filter :
      (vs : List Value) (negate : Bool)
      → hit negate vs c ≡ true
      → contains (cat_filter t vs negate) c ≡ true
  unfolding cat_filter
  contains-cat_filter vs negate h = contains-keep_if (hit negate vs) c t.categories hc h

  contains-cats_of :
      (negate : Bool) (es : List Text) (vs : List Value)
      → leaves negate es vs c ≡ true
      → dropped negate es ≡ true
      → contains (cats_of sorter t negate es vs) c ≡ true
  unfolding cats_of
  contains-cats_of negate [] [] h k = keeps.names (text_eq c) t.categories ∙ hc
  contains-cats_of negate [] (v ∷ vs) h k = contains-cat_filter (v ∷ vs) negate (ground (arith, h))
  contains-cats_of negate (e ∷ []) [] h k = ground (arith, h)
  contains-cats_of negate (e ∷ []) (v ∷ vs) h k =
      keeps.names (text_eq c)
        (cat_filter t (other_match (containment_match (e ∷ [])) ∷ v ∷ vs) false)
      ∙ contains-cat_filter (other_match (containment_match (e ∷ [])) ∷ v ∷ vs) false
          (hit-containment negate e [] (v ∷ vs) c h k)
  contains-cats_of negate (e ∷ f ∷ es) vs h k =
      keeps.names (text_eq c)
        (cat_filter t (other_match (containment_match (e ∷ f ∷ es)) ∷ vs) false)
      ∙ contains-cat_filter (other_match (containment_match (e ∷ f ∷ es)) ∷ vs) false
          (hit-containment negate e (f ∷ es) vs c h k)

  listed-package_filter :
      (cats : List Text) (vs : List Value) (negate : Bool)
      → contains cats c ≡ true
      → hit negate vs p ≡ true
      → listed c p (package_filter t cats vs negate) ≡ true
  unfolding package_filter
  listed-package_filter cats vs negate h k =
      listed-pairs (λ d. keep_if (hit negate vs) (packages_get t d)) cats c p h
        (contains-keep_if (hit negate vs) p (packages_get t c) hp k)

  listed-packages_of :
      (plain negate : Bool) (cats es : List Text) (vs : List Value)
      → contains cats c ≡ true
      → leaves negate es vs p ≡ true
      → dropped negate es ≡ true
      → listed c p (packages_of sorter t plain negate cats es vs) ≡ true
  unfolding packages_of
  listed-packages_of true negate cats [] [] m h k = listed-version_keys sorter keeps t c p hc hp
  listed-packages_of false negate cats [] [] m h k =
      listed-pairs (λ d. sort_names sorter (packages_get t d)) cats c p m
        (keeps.names (text_eq p) (packages_get t c) ∙ hp)
  listed-packages_of plain negate cats [] (v ∷ vs) m h k =
      listed-package_filter cats (v ∷ vs) negate m (ground (arith, h))
  listed-packages_of plain negate cats (e ∷ es) [] m h k =
      listed-pairs (λ d. sort_names sorter (e ∷ es)) cats c p m
        (keeps.names (text_eq p) (e ∷ es) ∙ ground (arith, h))
  listed-packages_of plain true cats (e ∷ es) (v ∷ vs) m h k = ground (arith, k)
  listed-packages_of plain false cats (e ∷ es) (v ∷ vs) m h k =
      listed-package_filter cats (other_match (containment_match (e ∷ es)) ∷ v ∷ vs) false m
        (hit-containment false e es (v ∷ vs) p h k)

  listed_apart :
      (negate : Bool) (ces : List Text) (cvs : List Value) (pes : List Text) (pvs : List Value)
      → leaves negate ces cvs c ≡ true
      → dropped negate ces ≡ true
      → leaves negate pes pvs p ≡ true
      → dropped negate pes ≡ true
      → listed c p (
          packages_of sorter t
            (is_iter sorter && (is_empty ces && is_empty cvs))
            negate
            (cats_of sorter t negate ces cvs)
            pes
            pvs)
        ≡ true
  listed_apart negate ces cvs pes pvs h k m n =
      listed-packages_of (is_iter sorter && (is_empty ces && is_empty cvs)) negate
        (cats_of sorter t negate ces cvs) pes pvs (contains-cats_of negate ces cvs h k) m n

  listed-candidates_of :
      (negate : Bool) (ces : List Text) (cvs : List Value) (pes : List Text) (pvs : List Value)
      → leaves negate ces cvs c ≡ true
      → dropped negate ces ≡ true
      → leaves negate pes pvs p ≡ true
      → dropped negate pes ≡ true
      → listed c p (candidates_of sorter t negate ces cvs pes pvs) ≡ true
  unfolding candidates_of
  listed-candidates_of negate [] cvs pes pvs h k m n = listed_apart negate [] cvs pes pvs h k m n
  listed-candidates_of negate (a ∷ b ∷ es) cvs pes pvs h k m n =
      listed_apart negate (a ∷ b ∷ es) cvs pes pvs h k m n
  listed-candidates_of negate (a ∷ []) (v ∷ vs) pes pvs h k m n =
      listed_apart negate (a ∷ []) (v ∷ vs) pes pvs h k m n
  listed-candidates_of negate (a ∷ []) [] [] pvs h k m n =
      listed_apart negate (a ∷ []) [] [] pvs h k m n
  listed-candidates_of negate (a ∷ []) [] (d ∷ e ∷ es) pvs h k m n =
      listed_apart negate (a ∷ []) [] (d ∷ e ∷ es) pvs h k m n
  listed-candidates_of negate (a ∷ []) [] (d ∷ []) (v ∷ vs) h k m n =
      listed_apart negate (a ∷ []) [] (d ∷ []) (v ∷ vs) h k m n
  listed-candidates_of negate (a ∷ []) [] (d ∷ []) [] h k m n =
      let is_c : text_eq c a ≡ true = ground (arith, h) in
      let is_p : text_eq p d ≡ true = ground (arith, m) in
      let found : contains (packages_get t a) d ≡ true =
        sym (
          ap (λ x. contains (packages_get t x) p) (text_eq_sound c a is_c)
          ∙ ap (contains (packages_get t a)) (text_eq_sound p d is_p))
        ∙ hp in
      rw found (ground (arith, is_c, is_p))

  -- What is said of categories, and of names, negated or not.
  pub listed-fast_candidates :
      (negate : Bool) (cvs pvs : List Value)
      → leaves negate (if negate then [] else exacts cvs) (inexacts cvs) c ≡ true
      → leaves negate (if negate then [] else exacts pvs) (inexacts pvs) p ≡ true
      → listed c p (fast_candidates sorter t negate cvs pvs) ≡ true
  unfolding fast_candidates
  listed-fast_candidates true cvs pvs h m =
      listed-candidates_of true [] (inexacts cvs) [] (inexacts pvs) h refl m refl
  listed-fast_candidates false cvs pvs h m =
      listed-candidates_of false (exacts cvs) (inexacts cvs) (exacts pvs) (inexacts pvs) h refl m
        refl
