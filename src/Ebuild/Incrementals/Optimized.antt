-- ===== src/Ebuild/Incrementals/Optimized.antt =====
-- Optimized incrementals expand to what the given ones expand to.
use pkgcore.Prelude.{
  ℕ, Bool, true, false, ◌&&◌, ◌≡◌, refl, ap, ◌∙◌, ◌⊎◌, inl, inr, List, [], ◌∷◌, some, all, arith,
  Bool-cases, and_left, and_right,
}
use pkgcore.Prelude.Text.{Text, text_eq}
use pkgcore.Ebuild.Atom.{contains}
use pkgcore.Ebuild.Incrementals.{
  Members, is_token, incremental_expansion, flag_of, clears, optimize_reversed,
  optimize_incrementals,
}
use mathlib.Core.List.{reverse, reverse_aux, reverse-reverse}
use pkgcore.Ebuild.Incrementals.Tokens.{
  expanded, incremental_expansion-reversed, after_equal, after_clear, after_flag, untouched,
  NoNegations, decided, seen-decided, after_kept,
}

module _ (finalize : Bool) (orig : Members) (clean : (finalize ≡ false) ⊎ NoNegations orig) where
  record Optimized (finalized items : List Text) : Type 0 where
    kept : List Text
    optimized : optimize_reversed finalized items ≡ some kept
    tokens : all is_token kept ≡ true
    same :
        (m : Text)
        → decided finalized m ≡ false
        → expanded finalize items orig m ≡ expanded finalize kept orig m

  kept_same :
      (finalized : List Text) (c : ℕ) (i : Text) (items kept : List Text) (m : Text)
      → decided finalized m ≡ false
      → ((u : Text)
          → decided (flag_of (c ∷ i) ∷ finalized) u ≡ false
          → expanded finalize items orig u ≡ expanded finalize kept orig u)
      → expanded finalize ((c ∷ i) ∷ items) orig m ≡ expanded finalize ((c ∷ i) ∷ kept) orig m
  unfolding expanded
  kept_same finalized c i items kept m h same = elim (Bool-cases (text_eq (flag_of (c ∷ i)) m)) [
    | inl e ↦
        after_flag finalize (expanded finalize items orig) (expanded finalize kept orig) m c i e
    | inr e ↦ elim (Bool-cases (text_eq (b'-' ∷ flag_of (c ∷ i)) m)) [
      | inl k ↦ after_kept finalize c i items kept orig m clean k
      | inr k ↦
          after_equal finalize (expanded finalize items orig) (expanded finalize kept orig) m
            (c ∷ i) (same m (rw e (rw k h)))
    ]
  ]

  Optimized-all :
      (finalized items : List Text) → all is_token items ≡ true → Optimized finalized items
  unfolding optimize_reversed expanded
  Optimized-all finalized [] h = record {
    kept = [];
    optimized = refl;
    tokens = refl;
    same = λ m k. refl;
  }
  Optimized-all finalized ([] ∷ items) h = cc
  Optimized-all finalized ((c ∷ i) ∷ items) h = elim (Bool-cases (clears (c ∷ i))) [
    | inl e ↦ record {
      kept = (c ∷ i) ∷ [];
      optimized = rw token (rw e refl);
      tokens = rw token refl;
      same = λ m k. after_clear finalize (expanded finalize items orig) orig m (c ∷ i) e;
    }
    | inr e ↦ elim (Bool-cases (contains finalized (flag_of (c ∷ i)))) [
      | inl k ↦
          let r = Optimized-all finalized items rest in
          record {
            kept = r.kept;
            optimized = rw token (rw e (rw k r.optimized));
            tokens = r.tokens;
            same = λ m d.
                let (p, q) = seen-decided finalized (flag_of (c ∷ i)) m k d in
                untouched finalize c i (expanded finalize items orig) m e p q ∙ r.same m d;
          }
      | inr k ↦
          let r = Optimized-all (flag_of (c ∷ i) ∷ finalized) items rest in
          record {
            kept = (c ∷ i) ∷ r.kept;
            optimized = rw token (rw e (rw k (rw r.optimized refl)));
            tokens = rw token r.tokens;
            same = λ m d. kept_same finalized c i items r.kept m d r.same;
          }
    ]
  ]
    where
      token : is_token (c ∷ i) ≡ true
      token = and_left (is_token (c ∷ i)) (all is_token items) h

      rest : all is_token items ≡ true
      rest = and_right (is_token (c ∷ i)) (all is_token items) h

all-reverse_aux :
    (p : Text → Bool) (xs ys : List Text) → all p (reverse_aux xs ys) ≡ (all p xs && all p ys)
all-reverse_aux p [] ys = refl
all-reverse_aux p (x ∷ xs) ys = ground (arith, all-reverse_aux p xs (x ∷ ys))

all-reverse : (p : Text → Bool) (xs : List Text) → all p xs ≡ true → all p (reverse xs) ≡ true
all-reverse p xs h = all-reverse_aux p xs [] ∙ rw h refl

expanded_once :
    (finalize : Bool) (tokens : List Text) (orig : Members)
    → all is_token tokens ≡ true
    → incremental_expansion finalize tokens orig ≡ some (expanded finalize (reverse tokens) orig)
unfolding expanded
expanded_once finalize tokens orig h = incremental_expansion-reversed finalize tokens [] orig h

-- Tokens none of which is empty or a minus alone are optimized without an error, and what is kept,
-- put back in order, expands to the set that all of them expand to. The expansion keeps the
-- negations in the set, or the set begins without any.
pub optimize_incrementals-incremental_expansion :
    (finalize : Bool) (sequence : List Text) (orig : Members)
    → all is_token sequence ≡ true
    → (finalize ≡ false) ⊎ NoNegations orig
    → (kept : List Text) × (s : Members) × (t : Members) × (optimize_incrementals sequence
        ≡ some kept)
      × (incremental_expansion finalize sequence orig ≡ some s)
      × (incremental_expansion finalize (reverse kept) orig ≡ some t)
      × ((m : Text) → s m ≡ t m)
unfolding optimize_incrementals
optimize_incrementals-incremental_expansion finalize sequence orig h clean =
    let r =
      Optimized-all finalize orig clean [] (reverse sequence) (all-reverse is_token sequence h) in
    (
      r.kept,
      expanded finalize (reverse sequence) orig,
      expanded finalize r.kept orig,
      r.optimized,
      expanded_once finalize sequence orig h,
      expanded_once finalize (reverse r.kept) orig (all-reverse is_token r.kept r.tokens)
          ∙ ap (λ l. some (expanded finalize l orig)) (reverse-reverse r.kept),
      λ m. r.same m refl,
    )
