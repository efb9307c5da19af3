-- ===== src/Ebuild/Atom/Parse/Pieces.antt =====
-- Cutting a text that was put together, and the use dependencies that `__str__` wrote.
use pkgcore.Prelude.{
  ℕ, Bool, true, false, not, ◌&&◌, ◌||◌, ◌≡◌, refl, ap, List, [], ◌∷◌, ◌++◌, Option, none, some,
  ◌==◌, is_empty, all, append-nil, arith, and_left, and_right,
}
use pkgcore.Prelude.Text.{Text, text_ltb, split, join}
use pkgcore.Prelude.Text.Laws.{lacks, split-join, all-join}
use pkgcore.Ebuild.VersionMatch.{differs}
use pkgcore.Ebuild.TransitiveUse.{last_char}
use pkgcore.Ebuild.Atom.Syntax.{ok, Eapi, cut}
use pkgcore.Ebuild.Atom.UseDeps.{sorted, check_flags, parse_use}
use pkgcore.Ebuild.Atom.SlotDeps.{cut_slot, cut_repo}
use pkgcore.Ebuild.Atom.Print.{str_use}

module _ (sep : ℕ) where
  pub cut-append : (s t : Text) → lacks sep s ≡ true → cut sep (s ++ sep ∷ t) ≡ some (s, t)
  unfolding cut
  cut-append [] t h = ground arith
  cut-append (c ∷ s) t h = rw (cut-append s t (and_right (not (c == sep)) _ h)) (ground arith)

  pub cut-lacks : (s : Text) → lacks sep s ≡ true → cut sep s ≡ none
  unfolding cut
  cut-lacks [] h = refl
  cut-lacks (c ∷ s) h = rw (cut-lacks s (and_right (not (c == sep)) _ h)) (ground arith)

pub cut_slot-append :
    (whole : Bool) (s t : Text)
    → lacks b':' s ≡ true
    → (whole || not (is_empty t)) ≡ true
    → cut_slot whole (s ++ b':' ∷ t) ≡ some (s, t)
unfolding cut_slot
cut_slot-append whole [] t h e = rw e refl
cut_slot-append whole (c ∷ s) t h e =
    rw (cut_slot-append whole s t (and_right (not (c == b':')) _ h) e) (ground arith)

pub cut_slot-lacks : (whole : Bool) (s : Text) → lacks b':' s ≡ true → cut_slot whole s ≡ none
unfolding cut_slot
cut_slot-lacks whole [] h = refl
cut_slot-lacks whole (c ∷ s) h =
    rw (cut_slot-lacks whole s (and_right (not (c == b':')) _ h)) (ground arith)

cut_repo-append : (s t : Text) → lacks b':' s ≡ true → cut_repo (s ++ b':' ∷ b':' ∷ t) ≡ some (s, t)
unfolding cut_repo
cut_repo-append [] t h = refl
cut_repo-append (c ∷ []) t h = ground arith
cut_repo-append (c ∷ d ∷ s) t h =
    rw (cut_repo-append (d ∷ s) t (and_right (not (c == b':')) _ h)) (ground arith)

pub cut_repo-colon :
    (c : ℕ) (s t : Text)
    → lacks b':' (c ∷ s) ≡ true
    → cut_repo (b':' ∷ (c ∷ s) ++ b':' ∷ b':' ∷ t) ≡ some (b':' ∷ c ∷ s, t)
unfolding cut_repo
cut_repo-colon c s t h = rw (cut_repo-append (c ∷ s) t h) (ground arith)

pub cut_repo-lacks : (s : Text) → lacks b':' s ≡ true → cut_repo s ≡ none
unfolding cut_repo
cut_repo-lacks [] h = refl
cut_repo-lacks (c ∷ []) h = refl
cut_repo-lacks (c ∷ d ∷ s) h =
    rw (cut_repo-lacks (d ∷ s) (and_right (not (c == b':')) _ h)) (ground arith)

-- What holds of all characters holds of the last one.
pub last_char-all :
    (q : ℕ → Bool) (c : ℕ) (s : Text) → all q (c ∷ s) ≡ true → q (last_char (c ∷ s)) ≡ true
unfolding last_char
last_char-all q c [] h = and_left (q c) true h
last_char-all q c (d ∷ s) h = last_char-all q d s (and_right (q c) _ h)

-- The texts ascend, equal ones included.
unfoldable is_ascending : List Text → Bool
is_ascending [] = true
is_ascending (x ∷ []) = true
is_ascending (x ∷ y ∷ ys) = not (text_ltb y x) && is_ascending (y ∷ ys)

sorted-ascending : (xs : List Text) → is_ascending xs ≡ true → sorted xs ≡ xs
unfolding sorted is_ascending
sorted-ascending [] h = refl
sorted-ascending (x ∷ []) h = refl
sorted-ascending (x ∷ y ∷ ys) h =
    rw (sorted-ascending (y ∷ ys) (and_right (not (text_ltb y x)) _ h)) (ground arith)

-- Use dependencies as the parser leaves them: in order, each accepted, and without the characters
-- that end or separate them.
unfoldable pub are_uses : Eapi → Option (List Text) → Bool → Bool
unfolding is_ascending
are_uses eapi none transitive = not transitive
are_uses eapi (some uses) transitive =
    not (is_empty uses)
    && (is_ascending uses
        && (all (lacks b',') uses
            && (all (lacks b']') uses && (elim (check_flags eapi uses) [
              | none ↦ false
              | some b ↦ not (differs b transitive)
            ]))))

same-transitive : (b t : Bool) → not (differs b t) ≡ true → b ≡ t
same-transitive b t h = ground arith

agreed :
    (o : Option Bool) (t : Bool)
    → (elim o [ none ↦ false | some b ↦ not (differs b t) ]) ≡ true
    → o ≡ some t
agreed none t h = cc
agreed (some b) t h = ap some (same-transitive b t h)

-- What `are_uses` says of flags that stand there.
record Uses (eapi : Eapi) (uses : List Text) (transitive : Bool) : Type 0 where
  ascending : is_ascending uses ≡ true
  commas : all (lacks b',') uses ≡ true
  brackets : all (lacks b']') uses ≡ true
  accepted : check_flags eapi uses ≡ some transitive

Uses-of :
    (eapi : Eapi) (uses : List Text) (transitive : Bool)
    → are_uses eapi (some uses) transitive ≡ true
    → Uses eapi uses transitive
unfolding are_uses
Uses-of eapi uses transitive h =
    let a = and_right (not (is_empty uses)) _ h in
    let b = and_right (is_ascending uses) _ a in
    let c = and_right (all (lacks b',') uses) _ b in
    record {
      ascending = and_left (is_ascending uses) _ a;
      commas = and_left (all (lacks b',') uses) _ b;
      brackets = and_left (all (lacks b']') uses) _ c;
      accepted = agreed _ transitive (and_right (all (lacks b']') uses) _ c);
    }

listed :
    (x : Text) (xs : List Text)
    → all (lacks b',') (x ∷ xs) ≡ true
    → is_ascending (x ∷ xs) ≡ true
    → sorted (split b',' (join b',' (x ∷ xs))) ≡ x ∷ xs
listed x xs h k = rw (split-join b',' x xs h) (sorted-ascending (x ∷ xs) k)

parse_use-Uses :
    (eapi : Eapi) (left x : Text) (xs : List Text) (transitive : Bool)
    → lacks b'[' left ≡ true
    → Uses eapi (x ∷ xs) transitive
    → parse_use eapi (left ++ str_use (some (x ∷ xs))) ≡ ok (left, some (x ∷ xs), transitive)
unfolding parse_use str_use
parse_use-Uses eapi left x xs transitive h u =
    rw (cut-append b'[' left (join b',' (x ∷ xs) ++ b']' ∷ []) h, parse_use)
      (rw
        (cut-append b']' (join b',' (x ∷ xs)) []
          (all-join b',' (λ c. not (c == b']')) (x ∷ xs) refl u.brackets))
        (rw (listed x xs u.commas u.ascending) (
          rw u.accepted
            (ap (λ l. ok (left, some l, transitive)) (listed x xs u.commas u.ascending)))))

pub parse_use-str :
    (eapi : Eapi) (left : Text) (uses : Option (List Text)) (transitive : Bool)
    → lacks b'[' left ≡ true
    → are_uses eapi uses transitive ≡ true
    → parse_use eapi (left ++ str_use uses) ≡ ok (left, uses, transitive)
unfolding str_use are_uses parse_use
parse_use-str eapi left none transitive h k =
    rw (append-nil left) (rw (cut-lacks b'[' left h, parse_use) (ground arith))
parse_use-str eapi left (some []) transitive h k = cc
parse_use-str eapi left (some (x ∷ xs)) transitive h k =
    parse_use-Uses eapi left x xs transitive h (Uses-of eapi (x ∷ xs) transitive k)
