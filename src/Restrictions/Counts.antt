-- ===== src/Restrictions/Counts.antt =====
-- The loops of `match` in src/pkgcore/restrictions/boolean.py, against the number of the
-- restrictions that match.
use pkgcore.Prelude.{
  ℕ, suc, ◌≤◌, Bool, true, false, not, ◌||◌, ◌≡◌, refl, ap, ◌∙◌, arith, ◌==◌, leb, if◌then◌else◌,
  Bool-cases, inl, inr,
}
use pkgcore.Restrictions.{
  Restrict, leaf, always, negated, and_of, or_of, just_one_of, at_most_one_of, atom_of, Restricts,
  nil, cons, matches, match_all, match_any, match_one, match_at_most,
}

==_suc : (a b : ℕ) → (a == b) ≡ (suc a == suc b)
==_suc a b = ground arith

leb_one : (a : ℕ) → (a == 0) ≡ leb (suc a) 1
leb_one a = ground arith

never_zero : (k : ℕ) (b : Bool) → b ≡ (suc k == 0 || b)
never_zero k b = ground arith

suc_not_zero : (k : ℕ) → (suc k == 0) ≡ false
suc_not_zero k = ground arith

fewer : (k m : ℕ) → k ≤ m → (k == suc m) ≡ false
fewer k m h = ground arith

-- the answer of a class that negates, for the condition b
abbrev pub answer : Bool → Bool → Bool
answer negate b = if negate then not b else b

answer-true : (n : Bool) → not n ≡ answer n true
answer-true true = refl
answer-true false = refl

answer-false : (n : Bool) → n ≡ answer n false
answer-false true = refl
answer-false false = refl

module _ {A : Type 0} (test : A → Bool) where
  -- How many restrictions there are, and how many match.
  unfoldable pub count : Restricts A → ℕ
  count nil = 0
  count (cons r rs) = suc (count rs)

  unfoldable pub count_matches : Restricts A → ℕ
  count_matches nil = 0
  count_matches (cons r rs) =
      let rest = count_matches rs in if matches test r then suc rest else rest

  count_matches-bound : (rs : Restricts A) → count_matches rs ≤ count rs
  unfolding count count_matches
  count_matches-bound nil = omega arith
  count_matches-bound (cons r rs) = ground (arith, count_matches-bound rs)

  match_all-count :
      (n : Bool) (rs : Restricts A) → match_all test n rs ≡ answer n (count_matches rs == count rs)
  unfolding matches count count_matches
  match_all-count n nil = ground arith
  match_all-count n (cons r rs) = elim (Bool-cases (matches test r)) [
    | inl e ↦ rw e (match_all-count n rs ∙ ap (answer n) (==_suc (count_matches rs) (count rs)))
    | inr e ↦ rw (e, fewer _ _ (count_matches-bound rs)) (answer-false n)
  ]

  match_any-count :
      (n : Bool) (rs : Restricts A) → match_any test n rs ≡ answer n (not (count_matches rs == 0))
  unfolding matches count_matches
  match_any-count n nil = ground arith
  match_any-count n (cons r rs) = elim (Bool-cases (matches test r)) [
    | inl e ↦ rw (e, suc_not_zero (count_matches rs)) (answer-true n)
    | inr e ↦ rw e (match_any-count n rs)
  ]

  match_one-armed :
      (n : Bool) (rs : Restricts A) → match_one test n true rs ≡ answer n (count_matches rs == 0)
  unfolding matches count_matches
  match_one-armed n nil = ground arith
  match_one-armed n (cons r rs) = elim (Bool-cases (matches test r)) [
    | inl e ↦ rw (e, suc_not_zero (count_matches rs)) (answer-false n)
    | inr e ↦ rw e (match_one-armed n rs)
  ]

  match_one-count :
      (n : Bool) (rs : Restricts A) → match_one test n false rs ≡ answer n (count_matches rs == 1)
  unfolding matches count_matches
  match_one-count n nil = ground arith
  match_one-count n (cons r rs) = elim (Bool-cases (matches test r)) [
    | inl e ↦ rw e (match_one-armed n rs ∙ ap (answer n) (==_suc (count_matches rs) 0))
    | inr e ↦ rw e (match_one-count n rs)
  ]

  match_at_most-armed :
      (n : Bool) (rs : Restricts A)
      → match_at_most test n true rs ≡ answer n (count_matches rs == 0)
  unfolding matches count_matches
  match_at_most-armed n nil = ground arith
  match_at_most-armed n (cons r rs) = elim (Bool-cases (matches test r)) [
    | inl e ↦ rw (e, suc_not_zero (count_matches rs)) (answer-false n)
    | inr e ↦ rw e (match_at_most-armed n rs)
  ]

  match_at_most-count :
      (n : Bool) (rs : Restricts A)
      → match_at_most test n false rs ≡ answer n (leb (count_matches rs) 1)
  unfolding matches count_matches
  match_at_most-count n nil = ground arith
  match_at_most-count n (cons r rs) = elim (Bool-cases (matches test r)) [
    | inl e ↦ rw e (match_at_most-armed n rs ∙ ap (answer n) (leb_one (count_matches rs)))
    | inr e ↦ rw e (match_at_most-count n rs)
  ]

  -- What each group of restrictions says of the number of its members that match. A JustOne of no
  -- restrictions is met.
  unfoldable pub group_met : Restrict A → Bool
  unfolding count count_matches
  group_met (and_of n rs) = answer n (count_matches rs == count rs)
  group_met (atom_of rs) = count_matches rs == count rs
  group_met (or_of n rs) = answer n (not (count_matches rs == 0))
  group_met (just_one_of n rs) = answer n (count rs == 0 || count_matches rs == 1)
  group_met (at_most_one_of n rs) = answer n (leb (count_matches rs) 1)
  group_met (leaf a) = test a
  group_met (always b) = b
  group_met (negated r) = not (matches test r)

  -- A restriction matches exactly when the number of its members that match is the one its class
  -- asks for: all, some, exactly one (or there are no members), at most one; negated, when not.
  pub matches-group_met : (r : Restrict A) → matches test r ≡ group_met r
  unfolding group_met matches count count_matches
  matches-group_met (leaf a) = refl
  matches-group_met (always b) = refl
  matches-group_met (negated r) = refl
  matches-group_met (and_of n rs) = match_all-count n rs
  matches-group_met (or_of n rs) = match_any-count n rs
  matches-group_met (just_one_of n nil) = ground arith
  matches-group_met (just_one_of n (cons r rs)) = elim (Bool-cases (matches test r)) [
    | inl e ↦ rw e (
        match_one-armed n rs
        ∙ ap (answer n)
            (==_suc (count_matches rs) 0 ∙ never_zero (count rs) (suc (count_matches rs) == 1)))
    | inr e ↦
        rw e (match_one-count n rs ∙ ap (answer n) (never_zero (count rs) (count_matches rs == 1)))
  ]
  matches-group_met (at_most_one_of n rs) = match_at_most-count n rs
  matches-group_met (atom_of rs) = match_all-count false rs
