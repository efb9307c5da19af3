-- ===== src/Restrictions.antt =====
-- src/pkgcore/restrictions/boolean.py and restriction.py: the tree of restrictions and `match`.
-- A leaf is a restriction object with no solutions methods of its own, such as a package
-- restriction; `test` is its `match` on the values at hand. A package atom is a conjunction that
-- stands for itself unless a full expansion is asked for.
pub mod Solutions
pub mod Counts
pub mod RequiredUse
use pkgcore.Prelude.{Bool, true, false, not, if◌then◌else◌}

mutual
  pub data Restrict (A : Type 0) : Type 0 where
    leaf : A → Restrict A
    always : Bool → Restrict A
    negated : Restrict A → Restrict A
    and_of : Bool → Restricts A → Restrict A
    or_of : Bool → Restricts A → Restrict A
    just_one_of : Bool → Restricts A → Restrict A
    at_most_one_of : Bool → Restricts A → Restrict A
    atom_of : Restricts A → Restrict A

  pub data Restricts (A : Type 0) : Type 0 where
    nil : Restricts A
    cons : Restrict A → Restricts A → Restricts A

module _ {A : Type 0} (test : A → Bool) where
  -- One block: `match` of each class, and the loops over `self.restrictions`, which return early.
  unfoldable mutual
    pub matches : Restrict A → Bool
    matches (leaf a) = test a
    matches (always negate) = negate
    matches (negated r) = not (matches r)
    matches (and_of negate rs) = match_all negate rs
    matches (or_of negate rs) = match_any negate rs
    matches (just_one_of negate nil) = not negate
    matches (just_one_of negate (cons r rs)) =
        match_one negate (if matches r then true else false) rs
    matches (at_most_one_of negate rs) = match_at_most negate false rs
    matches (atom_of rs) = match_all false rs

    -- AndRestriction
    pub match_all : Bool → Restricts A → Bool
    match_all negate nil = not negate
    match_all negate (cons r rs) = if not (matches r) then negate else match_all negate rs

    -- OrRestriction
    pub match_any : Bool → Restricts A → Bool
    match_any negate nil = negate
    match_any negate (cons r rs) = if matches r then not negate else match_any negate rs

    -- JustOneRestriction, with `armed`
    pub match_one : Bool → Bool → Restricts A → Bool
    match_one negate armed nil = if armed then not negate else negate
    match_one negate armed (cons r rs) =
        if matches r
        then (if armed then negate else match_one negate true rs)
        else match_one negate armed rs

    -- AtMostOneOfRestriction, with `armed`
    pub match_at_most : Bool → Bool → Restricts A → Bool
    match_at_most negate armed nil = not negate
    match_at_most negate armed (cons r rs) =
        if not (matches r)
        then match_at_most negate armed rs
        else if armed
        then negate
        else match_at_most negate true rs
