-- ===== src/Ebuild/TransitiveUse/Converted.antt =====
-- The conditionals that stand for an atom with transitive flags, evaluated as a dependency set is.
use pkgcore.Prelude.{
  Bool, true, false, not, ◌≡◌, refl, ap, sym, ◌∙◌, List, [], ◌∷◌, ◌++◌, if◌then◌else◌, map, arith,
  Bool-cases, inl, inr, append_assoc, append-nil, and_left, and_right,
}
use pkgcore.Prelude.Text.{Text}
use pkgcore.Ebuild.VersionMatch.{differs}
use pkgcore.Ebuild.Conditionals.{all_of, Node, element, conditional, Nodes}
use pkgcore.Ebuild.Conditionals.Evaluate.{
  no_payload, is_skipped, append_group, evaluate_conditionals, evaluate_all,
}
use pkgcore.Ebuild.Conditionals.OnTheWay.{unlocked}
use pkgcore.Ebuild.TransitiveUse.{
  variable_use, static_use, minus, each, evaluate_flag, evaluate_use, both_ways, recurse_use_conds,
  convert_to_conditionals,
}
use pkgcore.Ebuild.TransitiveUse.Parts.{
  Variable, render_variable, is_use_name, all_use_names, Parts, operator_of, Parts-rendered,
}

module _ (enabled : Text → Bool) where
  abbrev evaluated : Nodes (List Text) → List (Node (List Text))
  evaluated = evaluate_all (unlocked enabled) (λ e. e) all_of

  append_conjunction :
      (l : List (Node (List Text))) → append_group (unlocked enabled) (λ e. e) all_of all_of l ≡ l
  unfolding append_group
  append_conjunction [] = refl
  append_conjunction (n ∷ l) = refl

  evaluated_conditional :
      (negate : Bool) (flag : Text) (payload : Nodes (List Text))
      → no_payload payload ≡ false
      → evaluate_conditionals (unlocked enabled) (λ e. e) all_of (conditional negate flag payload)
        ≡ (if not (differs (enabled flag) negate) then [] else evaluated payload)
  unfolding evaluate_conditionals is_skipped
  evaluated_conditional negate flag payload h =
      rw h (rw (append_conjunction (evaluated payload)) refl)

  evaluated_both :
      (flag : Text) (on off : Nodes (List Text))
      → no_payload on ≡ false
      → no_payload off ≡ false
      → evaluated (both_ways flag on off) ≡ (if enabled flag then evaluated on else evaluated off)
  unfolding evaluate_conditionals
  evaluated_both flag on off h k = rw (evaluated_conditional false flag on h) (
      rw (evaluated_conditional true flag off k) (elim (Bool-cases (enabled flag)) [
        | inl e ↦ rw e (append-nil (evaluated on))
        | inr e ↦ rw e (append-nil (evaluated off))
      ]))

  recurse_some : (forced varied : List Text) → no_payload (recurse_use_conds forced varied) ≡ false
  unfolding recurse_use_conds
  recurse_some forced [] = refl
  recurse_some forced (flag ∷ varied) = ground arith

  -- What a flag's evaluation appends, of its parts.
  abbrev appended : Text → Bool → Bool → List Text
  appended name negated same =
      let agree = not (differs (enabled name) negated) in
      if same
      then (if agree then minus name else name) ∷ []
      else if agree
      then []
      else (if negated then minus name else name) ∷ []

  evaluate_flag-Parts :
      {flag name : Text} (negated same : Bool)
      → Parts flag name negated (operator_of same)
      → evaluate_flag enabled flag ≡ appended name negated same
  unfolding evaluate_flag
  evaluate_flag-Parts negated true p = rw p.bare (rw p.raw (rw p.last (rw p.marked refl)))
  evaluate_flag-Parts negated false p = rw p.bare (rw p.raw (rw p.last (rw p.marked refl)))

  -- The forced flags that are left of two conditionals.
  evaluated_pair :
      (flag : Text) (on off varied : List Text)
      → evaluated (both_ways flag (recurse_use_conds on varied) (recurse_use_conds off varied))
        ≡ evaluated (recurse_use_conds (if enabled flag then on else off) varied)
  evaluated_pair flag on off varied =
      rw (evaluated_both flag _ _ (recurse_some on varied) (recurse_some off varied))
        (elim (Bool-cases (enabled flag)) [ inl e ↦ rw e refl | inr e ↦ rw e refl ])

  -- The forced flags where the flag is on, and where it is off.
  abbrev forced_on : Text → Bool → Bool → List Text → List Text
  forced_on name negated same forced =
      if negated then (if same then forced ++ minus name ∷ [] else forced) else forced ++ name ∷ []

  abbrev forced_off : Text → Bool → Bool → List Text → List Text
  forced_off name negated same forced =
      if negated
      then forced ++ (if same then name else minus name) ∷ []
      else if same
      then forced ++ minus name ∷ []
      else forced

  recurse-Parts :
      {flag name : Text} (negated same : Bool) (forced varied : List Text)
      → Parts flag name negated (operator_of same)
      → recurse_use_conds forced (flag ∷ varied)
        ≡ both_ways name
            (recurse_use_conds (forced_on name negated same forced) varied)
            (recurse_use_conds (forced_off name negated same forced) varied)
  unfolding recurse_use_conds
  recurse-Parts true true forced varied p = rw p.stripped (rw p.last (rw p.marked refl))
  recurse-Parts true false forced varied p = rw p.stripped (rw p.last (rw p.marked refl))
  recurse-Parts false true forced varied p = rw p.stripped (rw p.last (rw p.marked refl))
  recurse-Parts false false forced varied p = rw p.stripped (rw p.last (rw p.marked refl))

  forced-appended :
      (name : Text) (negated same : Bool) (forced : List Text)
      → (if enabled name
          then forced_on name negated same forced
          else forced_off name negated same forced)
        ≡ forced ++ appended name negated same
  forced-appended name negated same forced = ground (arith, append-nil forced)

  -- One flag: the conditionals come down to the forced flags with what the evaluation appends.
  evaluated_flag :
      {flag name : Text} (negated same : Bool) (forced varied : List Text)
      → Parts flag name negated (operator_of same)
      → evaluated (recurse_use_conds forced (flag ∷ varied))
        ≡ evaluated (recurse_use_conds (forced ++ evaluate_flag enabled flag) varied)
  evaluated_flag negated same forced varied p =
      ap evaluated (recurse-Parts negated same forced varied p)
      ∙ evaluated_pair _ _ _ varied
      ∙ ap (λ u. evaluated (recurse_use_conds u varied))
          (forced-appended _ negated same forced
            ∙ ap (λ u. forced ++ u) (sym (evaluate_flag-Parts negated same p)))

  recursed :
      (forced : List Text) (vs : List Variable)
      → all_use_names vs ≡ true
      → evaluated (recurse_use_conds forced (map render_variable vs))
        ≡ element (forced ++ each (evaluate_flag enabled) (map render_variable vs)) ∷ []
  unfolding recurse_use_conds each evaluate_conditionals
  recursed forced [] h = ap (λ u. element u ∷ []) (sym (append-nil forced))
  recursed forced (v ∷ vs) h =
      evaluated_flag v.negated v.same forced (map render_variable vs)
        (Parts-rendered v.negated v.same v.name (and_left _ (all_use_names vs) h))
      ∙ recursed (forced ++ evaluate_flag enabled (render_variable v)) vs
          (and_right (is_use_name v.name) _ h)
      ∙ ap (λ u. element u ∷ []) (append_assoc forced _ _)

-- For an atom whose transitive flags are written `x?`, `!x?`, `x=` or `!x=`, with a name that
-- neither begins with `!` nor ends in `?`, `=` or `)`: the conditionals that stand for the atom,
-- evaluated as a dependency set is under any enabled flags, none of them locked, are one atom, and
-- its flags are those that the evaluation of the atom itself gives.
pub convert_to_conditionals-evaluate_use :
    (enabled : Text → Bool) (uses : List Text) (vs : List Variable)
    → variable_use uses ≡ map render_variable vs
    → all_use_names vs ≡ true
    → evaluate_all (unlocked enabled) (λ e. e) all_of (convert_to_conditionals uses)
      ≡ element (evaluate_use (unlocked enabled) uses) ∷ []
unfolding convert_to_conditionals evaluate_use
convert_to_conditionals-evaluate_use enabled uses vs e h =
    ap (λ u. evaluated enabled (recurse_use_conds (static_use uses) u)) e
    ∙ recursed enabled (static_use uses) vs h
    ∙ ap (λ u. element (static_use uses ++ each (evaluate_flag enabled) u) ∷ []) (sym e)
