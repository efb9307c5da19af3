-- ===== src/Resolver/Plan.antt =====
-- `plan_state` and the operations of src/pkgcore/resolver/state.py. An operation is a value; its
-- `apply` and `revert` are functions on the state. `none` is an exception: a KeyError of a dict, of
-- a set or of the slots, or a failed assertion.
pub mod Undo
pub mod Backtrack
use pkgcore.Prelude.{
  is_empty, ℕ, suc, ◌+◌, ◌-◌, ◌<◌, Bool, true, false, not, ◌≡◌, ◌↔◌, List, [], ◌∷◌, ◌++◌, map,
  Option, none, some, ◌>>=◌, length, take, drop, ◌==◌, leb, if◌then◌else◌,
}
use mathlib.Core.List.{reverse}
use pkgcore.Resolver.Slots.{
  Objects, Slots, Conflict, slotted, check_limiters, fill_slotting, get_conflicting_slot,
  add_limiter, remove_slotting, remove_limiter,
}

-- `RefCountingSet` of snakeoil.containers: a set whose members count their references.
pub record RefCounting (A : Type 0) : Type 1 where
  pub Counts : Type 0
  pub empty : Counts
  pub count : Counts → A → ℕ
  pub add : Counts → A → Counts
  -- `none` is KeyError
  pub remove : Counts → A → Option Counts
  pub count_empty : (a : A) → count empty a ≡ 0
  pub count_add_self : (c : Counts) (a : A) → count (add c a) a ≡ suc (count c a)
  pub remove_add : (c : Counts) (a : A) → remove (add c a) a ≡ some c

-- What a plan is about: packages, restrictions, and the choice points that chose them.
pub record Setting : Type 1 where
  pub objects : Objects
  pub open objects use *
  pub Choices : Type 0
  pub is_same_choices : Choices → Choices → Bool
  pub is_same_choices_iff : (c d : Choices) → (is_same_choices c d ≡ true) ↔ (c ≡ d)
  pub refs : RefCounting objects.Restriction

module _ (setting : Setting) where
  open setting use {objects, Choices, is_same_choices, refs}
  open setting.objects use {Pkg, Restriction, is_same, is_same_restriction}
  open setting.refs use {Counts, count, add, remove}

  -- The operations, with their fields; `replace` carries what its `apply` has noted.
  pub data PlanOp : Type 0 where
    add_pkg : Choices → Pkg → Bool → PlanOp
    add_hardref : Restriction → PlanOp
    add_backref : Choices → Pkg → PlanOp
    remove_pkg : Choices → Pkg → PlanOp
    replace_pkg : Choices → Pkg → Bool → Choices → Pkg → Bool → PlanOp
    incref_block : Choices → Restriction → ℕ → PlanOp
    decref_block : Choices → Restriction → ℕ → PlanOp

  pub record PlanState : Type 0 where
    pub state : Slots objects
    pub plan : List PlanOp
    pub pkg_choices : Pkg → Option Choices
    pub rev_blockers : Choices → List (Restriction × ℕ)
    pub blockers_refcnt : Counts
    pub vdb_filter : Pkg → Bool
    pub forced_restrictions : Counts

  -- `d[p] = v` and `s.add(p)`
  abbrev pub update : {A : Type 0} → (Pkg → A) → Pkg → A → Pkg → A
  update d p v q = if is_same p q then v else d q

  abbrev pub update_choices : {A : Type 0} → (Choices → A) → Choices → A → Choices → A
  update_choices d c v e = if is_same_choices c e then v else d e

  -- `l.remove((blocker, key))`: the first such pair; `none` is ValueError.
  unfoldable pub remove_first :
      Restriction → ℕ → List (Restriction × ℕ) → Option (List (Restriction × ℕ))
  remove_first r k [] = none
  remove_first r k ((s, j) ∷ l) =
      let rest = (do l' ← remove_first r k l; some ((s, j) ∷ l')) in
      if is_same_restriction s r then (if j == k then some l else rest) else rest

  -- incref_forward_block_op
  unfoldable pub apply_incref :
      Choices → Restriction → ℕ → PlanState → PlanState × List (Conflict objects)
  apply_incref choices blocker k p =
      let (limited, l) =
        if count p.blockers_refcnt blocker == 0
        then add_limiter objects p.state blocker k
        else (p.state, []) in
      (
        record p {
          plan = p.plan ++ incref_block choices blocker k ∷ [];
          state = limited;
          rev_blockers =
              update_choices p.rev_blockers choices (p.rev_blockers choices ++ (blocker, k) ∷ []);
          blockers_refcnt = add p.blockers_refcnt blocker;
        },
        map slotted l,
      )

  -- `add_blocker(choices, blocker, key)`
  unfoldable pub add_blocker :
      Choices → Restriction → ℕ → PlanState → PlanState × List (Conflict objects)
  unfolding apply_incref
  add_blocker choices blocker k p = apply_incref choices blocker k p

  -- `current_state`
  unfoldable pub current_state : PlanState → ℕ
  current_state p = length p.plan

  -- `if self.blocker not in plan.blockers_refcnt: plan.state.remove_limiter(self.blocker, self.key)`
  unfoldable pub drop_limiter : Counts → Slots objects → Restriction → ℕ → Option (Slots objects)
  drop_limiter counts s blocker k =
      if count counts blocker == 0 then remove_limiter objects s blocker k else some s

  unfoldable pub revert_incref : Choices → Restriction → ℕ → PlanState → Option PlanState
  revert_incref choices blocker k p = do
    l ← remove_first blocker k (p.rev_blockers choices)
    counts ← remove p.blockers_refcnt blocker
    s ← drop_limiter counts p.state blocker k
    some (record p {
      state = s;
      rev_blockers = update_choices p.rev_blockers choices l;
      blockers_refcnt = counts;
    })

  -- decref_forward_block_op
  unfoldable pub apply_decref : Choices → Restriction → ℕ → PlanState → Option PlanState
  apply_decref choices blocker k p = do
    counts ← remove p.blockers_refcnt blocker
    s ← drop_limiter counts p.state blocker k
    l ← remove_first blocker k (p.rev_blockers choices)
    some (record p {
      plan = p.plan ++ decref_block choices blocker k ∷ [];
      state = s;
      rev_blockers = update_choices p.rev_blockers choices l;
      blockers_refcnt = counts;
    })

  unfoldable pub revert_decref : Choices → Restriction → ℕ → PlanState → PlanState
  revert_decref choices blocker k p = record p {
    rev_blockers =
        update_choices p.rev_blockers choices (p.rev_blockers choices ++ (blocker, k) ∷ []);
    state =
        if count p.blockers_refcnt blocker == 0
        then (add_limiter objects p.state blocker k).0
        else p.state;
    blockers_refcnt = add p.blockers_refcnt blocker;
  }

  -- `_remove_pkg_blockers(choices)`, over the copy of the list.
  unfoldable pub remove_blockers : Choices → List (Restriction × ℕ) → PlanState → Option PlanState
  remove_blockers choices [] p = some p
  remove_blockers choices ((blocker, k) ∷ l) p = do
    p' ← apply_decref choices blocker k p
    remove_blockers choices l p'

  -- `del plan.pkg_choices[pkg]`
  unfoldable pub delete_choice : Pkg → PlanState → Option PlanState
  delete_choice pkg p = do
    c ← p.pkg_choices pkg
    some (record p { pkg_choices = update p.pkg_choices pkg none })

  -- `plan.vdb_filter.remove(pkg)`
  unfoldable pub unfilter : Pkg → PlanState → Option PlanState
  unfilter pkg p =
      if p.vdb_filter pkg
      then some (record p { vdb_filter = update p.vdb_filter pkg false })
      else none

  abbrev pub set_choice : Pkg → Choices → PlanState → PlanState
  set_choice pkg c p = record p { pkg_choices = update p.pkg_choices pkg (some c) }

  abbrev pub push_op : PlanOp → PlanState → PlanState
  push_op op p = record p { plan = p.plan ++ op ∷ [] }

  -- add_op
  unfoldable pub apply_add : Choices → Pkg → Bool → PlanState → PlanState × List (Conflict objects)
  apply_add choices pkg force p =
      let (s, l) = fill_slotting objects p.state pkg force in
      let added =
        push_op (add_pkg choices pkg force) (set_choice pkg choices (record p { state = s })) in
      if is_empty l then (added, []) else if force then (added, []) else (record p { state = s }, l)

  unfoldable pub revert_add : Pkg → PlanState → Option PlanState
  revert_add pkg p = do
    s ← remove_slotting objects p.state pkg
    delete_choice pkg (record p { state = s })

  -- add_hardref_op
  unfoldable pub apply_hardref : Restriction → PlanState → PlanState
  apply_hardref r p = record p {
    plan = p.plan ++ add_hardref r ∷ [];
    forced_restrictions = add p.forced_restrictions r;
  }

  unfoldable pub revert_hardref : Restriction → PlanState → Option PlanState
  revert_hardref r p = do
    counts ← remove p.forced_restrictions r
    some (record p { forced_restrictions = counts })

  -- remove_op
  unfoldable pub apply_remove : Choices → Pkg → PlanState → Option PlanState
  apply_remove choices pkg p = do
    s ← remove_slotting objects p.state pkg
    p1 ← remove_blockers choices (p.rev_blockers choices) (record p { state = s })
    p2 ← delete_choice pkg p1
    some (record p2 {
      plan = p2.plan ++ remove_pkg choices pkg ∷ [];
      vdb_filter = update p2.vdb_filter pkg true;
    })

  unfoldable pub revert_remove : Choices → Pkg → PlanState → Option PlanState
  revert_remove choices pkg p =
      unfilter pkg
        (set_choice pkg choices (record p { state = (fill_slotting objects p.state pkg true).0 }))

  -- replace_op.revert
  unfoldable pub revert_replace : Pkg → Choices → Pkg → Bool → PlanState → Option PlanState
  revert_replace pkg old_choices old_pkg force_old p = do
    s ← remove_slotting objects p.state pkg
    let (s', l) = fill_slotting objects s old_pkg force_old
    p1 ←
        if force_old
        then (if is_empty l then none else some (record p { state = s' }))
        else (if is_empty l then some (record p { state = s' }) else none)
    p2 ← delete_choice pkg p1
    unfilter old_pkg (set_choice old_pkg old_choices p2)

  -- `change.revert(self)`
  unfoldable pub revert : PlanOp → PlanState → Option PlanState
  revert (add_pkg choices pkg force) p = revert_add pkg p
  revert (add_hardref r) p = revert_hardref r p
  revert (add_backref choices pkg) p = some p
  revert (remove_pkg choices pkg) p = revert_remove choices pkg p
  revert (replace_pkg choices pkg force old_choices old_pkg force_old) p =
      revert_replace pkg old_choices old_pkg force_old p
  revert (incref_block choices blocker k) p = revert_incref choices blocker k p
  revert (decref_block choices blocker k) p = some (revert_decref choices blocker k p)

  unfoldable pub revert_all : List PlanOp → PlanState → Option PlanState
  revert_all [] p = some p
  revert_all (op ∷ ops) p = do p' ← revert op p; revert_all ops p'

  -- `backtrack(state_pos)`
  unfoldable pub backtrack : ℕ → PlanState → Option PlanState
  backtrack state_pos p =
      if leb state_pos (length p.plan)
      then (if length p.plan == state_pos then some p else (do
        p' ← revert_all (reverse (drop state_pos p.plan)) p
        some (record p' { plan = take state_pos p'.plan })))
      else none

  -- replace_op.apply
  unfoldable pub apply_replace :
      Choices → Pkg → Bool → PlanState → Option (PlanState × List (Conflict objects))
  apply_replace choices pkg force p = do
    let revert_point = length p.plan
    old ← get_conflicting_slot objects p.state pkg
    let force_old = not (is_empty (check_limiters objects p.state old))
    s ← remove_slotting objects p.state old
    old_choices ← p.pkg_choices old
    p1 ← remove_blockers old_choices (p.rev_blockers old_choices) (record p { state = s })
    let (s2, l) = fill_slotting objects p1.state pkg force
    let (s3, l2) = fill_slotting objects s2 old false
    let failed = (do
      p2 ← backtrack revert_point (record p1 { state = s3 })
      if is_empty l2 then some (p2, l) else none)
    let done = (do
      p2 ← delete_choice old (record p1 { state = s2 })
      let p3 = set_choice pkg choices p2
      some (
        record p3 {
          plan = p3.plan ++ replace_pkg choices pkg force old_choices old force_old ∷ [];
          vdb_filter = update p3.vdb_filter old true;
        },
        [],
      ))
    if is_empty l then done else failed
