-- ===== src/Resolver/Plan/Undo.antt =====
-- Reverting an operation undoes its application, and a backtrack undoes a run of operations.
use mathlib.Core.Path.{fun_ext}
use pkgcore.Prelude.{
  is_empty, ℕ, Bool, true, false, not, ◌≡◌, refl, ap, sym, ◌∙◌, List, [], ◌∷◌, ◌++◌, none, some,
  ◌==◌, ==_refl, ==_iff, arith, Bool-cases, inl, inr, all, ◌&&◌,
}
use pkgcore.Resolver.Slots.{fill_slotting}
use pkgcore.Resolver.Slots.Laws.{
  is_empty-nil, remove_slotting-fill_slotting, remove_limiter-add_limiter,
}
use pkgcore.Resolver.Plan.{
  Setting, PlanOp, add_pkg, add_hardref, incref_block, PlanState, update, update_choices,
  remove_first, apply_incref, drop_limiter, revert_incref, delete_choice, apply_add, revert_add,
  apply_hardref, revert_hardref, revert,
}

module _ (setting : Setting) where
  open setting use {objects, Choices, is_same_choices, is_same_choices_iff, refs}
  open setting.objects use {
    Pkg, Restriction, is_same, is_same_iff, is_same_restriction, is_same_restriction_iff,
  }
  open setting.refs use {count, add, remove, remove_add}

  -- Writing a key's old value back restores the dict.
  update_back :
      {A : Type 0} (d : Pkg → A) (p : Pkg) (v : A)
      → update setting (update setting d p v) p (d p) ≡ d
  update_back d p v = fun_ext λ q. elim (Bool-cases (is_same p q)) [
    | inl e ↦ rw e (ap d ((is_same_iff p q).0 e))
    | inr n ↦ rw n
  ]

  update_choices_back :
      {A : Type 0} (d : Choices → A) (c : Choices) (v : A)
      → update_choices setting (update_choices setting d c v) c (d c) ≡ d
  update_choices_back d c v = fun_ext λ e. elim (Bool-cases (is_same_choices c e)) [
    | inl h ↦ rw h (ap d ((is_same_choices_iff c e).0 h))
    | inr n ↦ rw n
  ]

  -- `p` with another list of operations behind it.
  abbrev pub with_plan : PlanState setting → List (PlanOp setting) → PlanState setting
  with_plan p l = record p { plan = l }

  same_self : (pkg : Pkg) → is_same pkg pkg ≡ true
  same_self pkg = (is_same_iff pkg pkg).1 refl

  choices_self : (c : Choices) → is_same_choices c c ≡ true
  choices_self c = (is_same_choices_iff c c).1 refl

  filled_free :
      (choices : Choices) (pkg : Pkg) (p : PlanState setting)
      → (apply_add setting choices pkg false p).1 ≡ []
      → (fill_slotting objects p.state pkg false).1 ≡ []
  unfolding apply_add
  filled_free choices pkg p h =
      elim (Bool-cases (is_empty (fill_slotting objects p.state pkg false).1)) [
        | inl e ↦ is_empty-nil _ e
        | inr n ↦ rw n at h
      ]

  pub plan-apply_add :
      (choices : Choices) (pkg : Pkg) (p : PlanState setting)
      → (apply_add setting choices pkg false p).1 ≡ []
      → (apply_add setting choices pkg false p).0.plan ≡ p.plan ++ add_pkg choices pkg false ∷ []
  plan-apply_add choices pkg p h =
      let free = filled_free choices pkg p h in unfold apply_add in rw free

  -- Reverting an unforced addition that met no conflict, of a package that had no choices, restores
  -- all but the list of operations.
  pub revert-apply_add :
      (choices : Choices) (pkg : Pkg) (p : PlanState setting) (l : List (PlanOp setting))
      → (apply_add setting choices pkg false p).1 ≡ []
      → p.pkg_choices pkg ≡ none
      → revert setting
          (add_pkg choices pkg false)
          (with_plan (apply_add setting choices pkg false p).0 l)
        ≡ some (with_plan p l)
  unfolding apply_add revert revert_add delete_choice
  revert-apply_add choices pkg p l h fresh =
      rw
        (
          filled_free choices pkg p h,
          remove_slotting-fill_slotting objects p.state pkg (filled_free choices pkg p h),
          same_self pkg,
        )
        (ap (λ d. some (record p { plan = l; pkg_choices = d }))
          (ap (update setting (update setting p.pkg_choices pkg (some choices)) pkg) (sym fresh)
            ∙ update_back p.pkg_choices pkg (some choices)))

  -- Reverting a forced restriction restores all but the list of operations.
  pub revert-apply_hardref :
      (r : Restriction) (p : PlanState setting) (l : List (PlanOp setting))
      → revert setting (add_hardref r) (with_plan (apply_hardref setting r p) l)
        ≡ some (with_plan p l)
  unfolding apply_hardref revert revert_hardref
  revert-apply_hardref r p l = rw remove_add

  -- The pair is not in the list.
  abbrev pub lacks_pair : Restriction → ℕ → List (Restriction × ℕ) → Bool
  lacks_pair r k = all (λ (s, j). not (is_same_restriction s r && (j == k)))

  remove_first-snoc :
      (r : Restriction) (k : ℕ) (l : List (Restriction × ℕ))
      → lacks_pair r k l ≡ true
      → remove_first setting r k (l ++ (r, k) ∷ []) ≡ some l
  unfolding remove_first
  remove_first-snoc r k [] h = rw ((is_same_restriction_iff r r).1 refl, ==_refl k)
  remove_first-snoc r k ((s, j) ∷ l) h = ground (arith, remove_first-snoc r k l)

  -- A blocker that has no references has no limiter.
  pub record IsCounted (p : PlanState setting) (blocker : Restriction) (k : ℕ) : Type 0 where
    pub unlimited :
        count p.blockers_refcnt blocker ≡ 0
        → all (λ x. not (is_same_restriction x blocker)) (p.state.limiters k) ≡ true

  -- Reverting a blocker's increment restores all but the list of operations, if the pair of blocker
  -- and key was not noted for the choices, and a blocker without references limits nothing.
  pub revert-apply_incref :
      (choices : Choices) (blocker : Restriction) (k : ℕ) (p : PlanState setting)
      (l : List (PlanOp setting))
      → IsCounted p blocker k
      → lacks_pair blocker k (p.rev_blockers choices) ≡ true
      → revert setting
          (incref_block choices blocker k)
          (with_plan (apply_incref setting choices blocker k p).0 l)
        ≡ some (with_plan p l)
  unfolding apply_incref revert revert_incref drop_limiter
  revert-apply_incref choices blocker k p l counted lacks =
      elim (Bool-cases (count p.blockers_refcnt blocker == 0)) [
        | inl e ↦
            rw
              (
                e,
                choices_self choices,
                remove_first-snoc blocker k (p.rev_blockers choices) lacks,
                remove_add,
                e,
                remove_limiter-add_limiter objects p.state blocker k
                    (counted.unlimited ((==_iff _ 0).0 e)),
              )
              (ap (λ d. some (record p { plan = l; rev_blockers = d }))
                (update_choices_back p.rev_blockers choices _))
        | inr n ↦
            rw
              (
                n,
                choices_self choices,
                remove_first-snoc blocker k (p.rev_blockers choices) lacks,
                remove_add,
                n,
              )
              (ap (λ d. some (record p { plan = l; rev_blockers = d }))
                (update_choices_back p.rev_blockers choices _))
      ]
