-- ===== src/Repository/Found.antt =====
-- What `itermatch` of src/pkgcore/repository/prototype.py yields.
use mathlib.Core.List.{flat_map}
use pkgcore.Prelude.{
  Bool, true, false, ◌&&◌, ◌≡◌, refl, sym, ap, ◌∙◌, List, [], ◌∷◌, map, Option, none, some, ◌>>=◌,
  arith, any, is_empty, if◌then◌else◌, Bool-cases, Option-cases, inl, inr,
}
use pkgcore.Prelude.Text.{Text}
use pkgcore.Restrictions.{matches}
use pkgcore.Repository.{
  match_leaf, Entry, Tree, Sorter, sort_keys, sort_entries, Pair, contains, packages_get,
  versions_get, version_keys,
}
use pkgcore.Repository.Search.{
  entries_of, gen_candidates, internal_match, Query, restriction_of, candidates, itermatch,
}
use pkgcore.Repository.Members.{any_witness, any-ext, any-flat_map, any-map, any_same, listed}
use pkgcore.Repository.Complete.{KeepsMembers, listed_in, listed-version_keys}
use pkgcore.Repository.Possible.{answered, possible, candidates-defined}

-- Every package of the repository.
unfoldable pub all_entries : Bool → Tree → List Entry
all_entries versioned t = flat_map (entries_of versioned t) (version_keys t)

-- A yield that is a package with f.
abbrev pub yields : (Entry → Bool) → Option Entry → Bool
yields f none = false
yields f (some e) = f e

any-internal_match :
    (f m : Entry → Bool) (yield_none : Bool) (es : List Entry)
    → any (yields f) (internal_match m yield_none es) ≡ any (λ e. f e && m e) es
unfolding internal_match
any-internal_match f m yield_none [] = refl
any-internal_match f m yield_none (e ∷ es) = ground (arith, any-internal_match f m yield_none es)

-- An entry of a key is a package of that category and name, which the repository has.
entry_of :
    (f : Entry → Bool) (t : Tree) (c p : Text)
    → any f (entries_of true t (c, p)) ≡ true
    → (e : Entry) × (f e ≡ true) × (e.category ≡ c) × (e.name ≡ p) × (e.bare ≡ false)
unfolding entries_of
entry_of f t c p h =
    let make : Text → Entry =
      λ v. record { bare = false; category = c; name = p; fullver = some v } in
    let (v, k, m) =
      any_witness (λ v. f (make v)) (versions_get t (c, p))
        (sym (any-map f make (versions_get t (c, p))) ∙ h) in
    (make v, k, refl, refl, refl)

no_versions :
    (t : Tree) (c p : Text) → contains (packages_get t c) p ≡ false → versions_get t (c, p) ≡ []
unfolding versions_get
no_versions t c p h = ap (λ b. if b then t.get_versions c p else []) h

no_entries :
    (f : Entry → Bool) (versioned : Bool) (t : Tree) (c p : Text)
    → versions_get t (c, p) ≡ []
    → any f (entries_of versioned t (c, p)) ≡ false
unfolding entries_of
no_entries f true t c p h =
    ap
      (λ vs.
        any f (map (λ v. record { bare = false; category = c; name = p; fullver = some v }) vs))
      h
no_entries f false t c p h =
    ap
      (λ vs. any f (
        if is_empty vs
        then []
        else record { bare = true; category = c; name = p; fullver = none } ∷ []))
      h

listed_name :
    (f : Entry → Bool) (versioned : Bool) (t : Tree) (c p : Text)
    → any f (entries_of versioned t (c, p)) ≡ true
    → contains (packages_get t c) p ≡ true
listed_name f versioned t c p h = elim (Bool-cases (contains (packages_get t c) p)) [
  | inl e ↦ e
  | inr e ↦ ground (arith, no_entries f versioned t c p (no_versions t c p e), h)
]

listed_category :
    (t : Tree) (c p : Text) → contains (packages_get t c) p ≡ true → contains t.categories c ≡ true
unfolding packages_get
listed_category t c p h = elim (Bool-cases (contains t.categories c)) [
  | inl e ↦ e
  | inr e ↦ ground (arith, ap (λ b. contains (if b then t.get_packages c else []) p) (sym e) ∙ h)
]

module _ (sorter : Option Sorter) (keeps : KeepsMembers sorter)
    (pkg_filter : List Entry → List Entry) (keep : Entry → Bool)
    (filters : (f : Entry → Bool) (es : List Entry)
      → any f (pkg_filter es) ≡ any (λ e. keep e && f e) es)
    (t : Tree) where
  any-gen_candidates :
      (f : Entry → Bool) (ks : List Pair)
      → any f (gen_candidates sorter pkg_filter true t ks)
        ≡ any (λ k. any (λ e. keep e && f e) (entries_of true t k)) ks
  unfolding gen_candidates
  any-gen_candidates f ks =
      any-flat_map f (λ cp. sort_entries sorter (pkg_filter (entries_of true t cp)))
        (sort_keys sorter ks)
      ∙ keeps.keys (λ cp. any f (sort_entries sorter (pkg_filter (entries_of true t cp)))) ks
      ∙ any-ext (λ cp. any f (sort_entries sorter (pkg_filter (entries_of true t cp))))
          (λ cp. any (λ e. keep e && f e) (entries_of true t cp)) ks
          (λ cp.
            keeps.entries f (pkg_filter (entries_of true t cp)) ∙ filters f (entries_of true t cp))

  -- a key with a package that matches is among the candidates
  wanted_key :
      (q : Query)
      → answered q ≡ true
      → (ks : List Pair) → candidates sorter t q ≡ some ks
      → (f : Entry → Bool) (c p : Text)
      → any
          (λ e. keep e && (f e && matches (match_leaf e) (restriction_of q)))
          (entries_of true t (c, p))
        ≡ true
      → listed c p ks ≡ true
  wanted_key q a ks found f c p h =
      let has_p =
        listed_name (λ e. keep e && (f e && matches (match_leaf e) (restriction_of q))) true t c p
          h in
      let has_c = listed_category t c p has_p in
      let (e, k, is_c, is_p, whole) =
        entry_of (λ e. keep e && (f e && matches (match_leaf e) (restriction_of q))) t c p h in
      ap (λ o. listed_in c p o) (sym found)
      ∙ ap (λ x. listed_in x p (candidates sorter t q)) (sym is_c)
      ∙ ap (λ x. listed_in e.category x (candidates sorter t q)) (sym is_p)
      ∙ possible sorter keeps t e whole (ap (contains t.categories) is_c ∙ has_c)
          (ap (λ x. contains (packages_get t x) e.name) is_c
            ∙ ap (contains (packages_get t c)) is_p
            ∙ has_p)
          q a (ground (arith, k))

  -- A search with versions, for an atom, for a single restriction that is no Negate and no group,
  -- for a negated And or Or, or for a tree of Ands, non-empty Ors and atoms whose groups are not
  -- negated and that holds no JustOne and no AtMostOne, returns, with a sorter that keeps the
  -- members and a filter that keeps the packages with a property: a test holds of some package that
  -- it yields exactly when it holds of some package of the repository that the filter keeps and the
  -- restriction matches. In such a tree a restriction on the category or on the name does not negate
  -- its own value, and there, as in a single restriction that is not negated, an exact text that is
  -- not negated minds the case.
  pub itermatch_lem :
      (yield_none : Bool) (q : Query)
      → answered q ≡ true
      → (res : List (Option Entry)) × (itermatch sorter pkg_filter true yield_none t q ≡ some res)
        × ((f : Entry → Bool)
            → any (yields f) res
              ≡ any
                  (λ e. keep e && (f e && matches (match_leaf e) (restriction_of q)))
                  (all_entries true t))
  unfolding itermatch all_entries
  itermatch_lem yield_none q a = elim (Option-cases (candidates sorter t q)) [
    | inl e ↦ (let d = candidates-defined sorter t q a in cc (d, e))
    | inr (ks, e) ↦
        let m : Entry → Bool = λ x. matches (match_leaf x) (restriction_of q) in
        let es : List Entry = gen_candidates sorter pkg_filter true t ks in
        (
          internal_match m yield_none es,
          ap
              (λ o. o >>= λ ls.
                some (internal_match m yield_none (gen_candidates sorter pkg_filter true t ls)))
              e,
          λ f.
              any-internal_match f m yield_none es
              ∙ any-gen_candidates (λ x. f x && m x) ks
              ∙ any_same (λ k. any (λ x. keep x && (f x && m x)) (entries_of true t k)) ks
                  (version_keys t) (λ c p h. wanted_key q a ks e f c p h)
                  (λ c p h.
                    let has_p = listed_name (λ x. keep x && (f x && m x)) true t c p h in
                    listed-version_keys sorter keeps t c p (listed_category t c p has_p) has_p)
              ∙ sym
                  (any-flat_map (λ x. keep x && (f x && m x)) (entries_of true t) (version_keys t)),
        )
  ]
