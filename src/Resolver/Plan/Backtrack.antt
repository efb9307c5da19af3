-- ===== src/Resolver/Plan/Backtrack.antt =====
-- A backtrack to an earlier length of the plan restores the state of that time.
use mathlib.Core.List.{reverse, reverse-append}
use pkgcore.Prelude.{
  ℕ, suc, ◌+◌, true, false, ◌≡◌, refl, ap, sym, ◌∙◌, List, [], ◌∷◌, ◌++◌, none, some, length,
  length-append, take, drop, ◌==◌, ==_refl, leb, arith, append_assoc, append-nil,
}
use pkgcore.Resolver.Plan.{
  Setting, PlanOp, add_pkg, add_hardref, add_backref, incref_block, PlanState, push_op, apply_add,
  apply_hardref, apply_incref, revert, revert_all, backtrack,
}
use pkgcore.Resolver.Plan.Undo.{
  IsCounted, lacks_pair, with_plan, plan-apply_add, revert-apply_add, revert-apply_hardref,
  revert-apply_incref,
}

take-append : {A : Type 0} (xs ys : List A) → take (length xs) (xs ++ ys) ≡ xs
take-append [] ys = refl
take-append (x ∷ xs) ys = ap (λ l. x ∷ l) (take-append xs ys)

drop-append : {A : Type 0} (xs ys : List A) → drop (length xs) (xs ++ ys) ≡ ys
drop-append [] ys = refl
drop-append (x ∷ xs) ys = drop-append xs ys

leb_refl : (n : ℕ) → leb n n ≡ true
leb_refl n = ground arith

longer_leb : (n m k : ℕ) → m ≡ n + suc k → leb n m ≡ true
longer_leb n m k h = ground arith

longer_ne : (n m k : ℕ) → m ≡ n + suc k → (m == n) ≡ false
longer_ne n m k h = ground arith

module _ (setting : Setting) where
  open setting use {Choices}
  open setting.objects use {Pkg, Restriction}

  -- One operation that went through, from `p` to `q`.
  pub data Step (p q : PlanState setting) : Type 0 where
    added :
        (choices : Choices) (pkg : Pkg)
        → (apply_add setting choices pkg false p).1 ≡ []
        → p.pkg_choices pkg ≡ none
        → q ≡ (apply_add setting choices pkg false p).0
        → Step p q
    hardref : (r : Restriction) → q ≡ apply_hardref setting r p → Step p q
    backref :
        (choices : Choices) (pkg : Pkg) → q ≡ push_op setting (add_backref choices pkg) p → Step p q
    blocked :
        (choices : Choices) (blocker : Restriction) (k : ℕ)
        → IsCounted setting p blocker k
        → lacks_pair setting blocker k (p.rev_blockers choices) ≡ true
        → q ≡ (apply_incref setting choices blocker k p).0
        → Step p q

  -- A run of them.
  pub data Run (p : PlanState setting) : PlanState setting → Type 0 where
    start : Run p p
    then_step : {q r : PlanState setting} → Run p q → Step q r → Run p r

  -- An operation stands at the end of the plan, and reverting it restores the rest.
  record Undone (p q : PlanState setting) : Type 0 where
    op : PlanOp setting
    pushed : q.plan ≡ p.plan ++ op ∷ []
    undone :
        (l : List (PlanOp setting))
        → revert setting op (with_plan setting q l) ≡ some (with_plan setting p l)

  Step-Undone : {p q : PlanState setting} → Step p q → Undone p q
  Step-Undone {p} {q} (added choices pkg h fresh e) = record {
    op = add_pkg choices pkg false;
    pushed = rw e (plan-apply_add setting choices pkg p h);
    undone = λ l. rw e (revert-apply_add setting choices pkg p l h fresh);
  }
  Step-Undone {p} {q} (hardref r e) = record {
    op = add_hardref r;
    pushed = rw e (unfold apply_hardref in refl);
    undone = λ l. rw e (revert-apply_hardref setting r p l);
  }
  Step-Undone {p} {q} (backref choices pkg e) = record {
    op = add_backref choices pkg;
    pushed = rw e;
    undone = λ l. rw e (unfold revert in refl);
  }
  Step-Undone {p} {q} (blocked choices blocker k counted lacks e) = record {
    op = incref_block choices blocker k;
    pushed = rw e (unfold apply_incref in refl);
    undone = λ l. rw e (revert-apply_incref setting choices blocker k p l counted lacks);
  }

  record AllUndone (p q : PlanState setting) : Type 0 where
    ops : List (PlanOp setting)
    pushed : q.plan ≡ p.plan ++ ops
    undone :
        (l : List (PlanOp setting))
        → revert_all setting (reverse ops) (with_plan setting q l) ≡ some (with_plan setting p l)

  Run-AllUndone : {p q : PlanState setting} → Run p q → AllUndone p q
  unfolding revert_all
  Run-AllUndone {p} start = record {
    ops = [];
    pushed = sym (append-nil p.plan);
    undone = λ l. refl;
  }
  Run-AllUndone {p} (then_step {q} {r} run step) =
      let before = Run-AllUndone run in
      let last = Step-Undone step in
      record {
        ops = before.ops ++ last.op ∷ [];
        pushed =
            last.pushed
            ∙ ap (λ l. l ++ last.op ∷ []) before.pushed
            ∙ append_assoc p.plan before.ops _;
        undone = λ l.
            rw (reverse-append before.ops (last.op ∷ [])) (rw (last.undone l) (before.undone l));
      }

  finish :
      (p q : PlanState setting) (ops : List (PlanOp setting))
      → q.plan ≡ p.plan ++ ops
      → ((l : List (PlanOp setting))
          → revert_all setting (reverse ops) (with_plan setting q l) ≡ some (with_plan setting p l))
      → backtrack setting (length p.plan) q ≡ some p
  unfolding backtrack
  finish p q [] e u =
      let same = ap length (e ∙ append-nil p.plan) in
      rw (same, leb_refl (length p.plan), ==_refl (length p.plan))
        (unfold revert_all in
          u q.plan ∙ ap (λ l. some (with_plan setting p l)) (e ∙ append-nil p.plan))
  finish p q (o ∷ ops) e u =
      let longer = ap length e ∙ length-append p.plan (o ∷ ops) in
      rw
        (
          longer_leb _ _ _ longer,
          longer_ne _ _ _ longer,
          ap (drop (length p.plan)) e ∙ drop-append p.plan (o ∷ ops),
          u q.plan,
        )
        (ap (λ l. some (with_plan setting p l))
          (ap (take (length p.plan)) e ∙ take-append p.plan _))

  -- After a run of unforced additions without conflicts of packages without choices, of forced
  -- restrictions, of back references and of new blockers, a backtrack to the length that the plan
  -- had before returns the state of that time exactly, the plan included.
  pub backtrack_lem :
      (p q : PlanState setting) → Run p q → backtrack setting (length p.plan) q ≡ some p
  backtrack_lem p q run = let all = Run-AllUndone run in finish p q all.ops all.pushed all.undone
