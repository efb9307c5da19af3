-- ===== src/Ebuild/Incrementals/Tokens.antt =====
-- What one token of an incremental variable decides.
use pkgcore.Prelude.{
  ℕ, Bool, true, false, not, ◌&&◌, ◌||◌, ◌≡◌, refl, ap, sym, ◌∙◌, ◌⊎◌, inl, inr, List, [], ◌∷◌,
  some, ◌==◌, ==_iff, if◌then◌else◌, all, any, arith, Bool-cases, and_left, and_right,
}
use pkgcore.Prelude.Text.{Text, codes, text_eq}
use pkgcore.Prelude.Text.Laws.{text_eq_sound}
use pkgcore.Ebuild.Atom.{contains}
use pkgcore.Ebuild.Incrementals.{
  Members, add, discard, clear, expand_token, is_token, incremental_expansion, flag_of, clears,
}
use mathlib.Core.List.{reverse_aux}

-- The members after the tokens, the last of which stands first.
unfoldable pub expanded : Bool → List Text → Members → Members
unfolding expand_token
expanded finalize [] orig = orig
expanded finalize (token ∷ tokens) orig =
    expand_token finalize token (expanded finalize tokens orig)

pub incremental_expansion-reversed :
    (finalize : Bool) (tokens before : List Text) (orig : Members)
    → all is_token tokens ≡ true
    → incremental_expansion finalize tokens (expanded finalize before orig)
      ≡ some (expanded finalize (reverse_aux tokens before) orig)
unfolding incremental_expansion expanded
incremental_expansion-reversed finalize [] before orig h = refl
incremental_expansion-reversed finalize (token ∷ tokens) before orig h =
    rw (and_left (is_token token) _ h) (
      incremental_expansion-reversed finalize tokens (token ∷ before) orig
        (and_right (is_token token) _ h))

finalized_or-add :
    (finalize : Bool) (c : ℕ) (i : Text) (left : Members) (m : Text)
    → (if finalize then left else add (c ∷ i) left) m
      ≡ ((not finalize && text_eq (c ∷ i) m) || left m)
unfolding add
finalized_or-add true c i left m = refl
finalized_or-add false c i left m = refl

-- Whether a token leaves a member there.
module _ (finalize : Bool) (c : ℕ) (i : Text) (s : Members) (m : Text) where
  of_minus :
      (c == b'-') ≡ true
      → expand_token finalize (c ∷ i) s m ≡ (
          (not finalize && text_eq (c ∷ i) m)
          || (not (text_eq i (codes "*")) && (not (text_eq i m) && s m)))
  unfolding expand_token
  of_minus h = rw h (elim (Bool-cases (text_eq i (codes "*"))) [
    | inl e ↦ rw e (finalized_or-add finalize c i clear m)
    | inr e ↦ rw e (finalized_or-add finalize c i (discard i s) m)
  ])

  of_plus :
      (c == b'-') ≡ false
      → expand_token finalize (c ∷ i) s m
        ≡ (text_eq (c ∷ i) m || (not (text_eq (b'-' ∷ c ∷ i) m) && s m))
  unfolding expand_token
  of_plus h = rw h refl

flag_of-minus : (c : ℕ) (i : Text) → (c == b'-') ≡ true → flag_of (c ∷ i) ≡ i
flag_of-minus c i e = rw e refl

module _ (finalize : Bool) (s t : Members) (m : Text) where
  pub after_equal :
      (item : Text) → s m ≡ t m → expand_token finalize item s m ≡ expand_token finalize item t m
  unfolding expand_token
  after_equal [] h = h
  after_equal (c ∷ i) h = elim (Bool-cases (c == b'-')) [
    | inl e ↦ rw (of_minus finalize c i s m e) (rw (of_minus finalize c i t m e) (rw h refl))
    | inr e ↦ rw (of_plus finalize c i s m e) (rw (of_plus finalize c i t m e) (rw h refl))
  ]

  -- A token that clears, or whose flag is the member, does not ask what was there.
  pub after_clear :
      (item : Text)
      → clears item ≡ true
      → expand_token finalize item s m ≡ expand_token finalize item t m
  after_clear [] h = cc
  after_clear (c ∷ i) h =
      let e = and_left (c == b'-') _ h in
      rw (of_minus finalize c i s m e)
        (rw (of_minus finalize c i t m e) (rw (and_right (c == b'-') _ h) refl))

  pub after_flag :
      (c : ℕ) (i : Text)
      → text_eq (flag_of (c ∷ i)) m ≡ true
      → expand_token finalize (c ∷ i) s m ≡ expand_token finalize (c ∷ i) t m
  after_flag c i h = elim (Bool-cases (c == b'-')) [
    | inl e ↦
        rw (of_minus finalize c i s m e) (rw (of_minus finalize c i t m e) (ground (arith, h, e)))
    | inr e ↦
        rw (of_plus finalize c i s m e) (rw (of_plus finalize c i t m e) (ground (arith, h, e)))
  ]

  -- Unless it is finalized, a token also decides on the negation of its flag.
  after_negation :
      (c : ℕ) (i : Text)
      → finalize ≡ false
      → text_eq (b'-' ∷ flag_of (c ∷ i)) m ≡ true
      → expand_token finalize (c ∷ i) s m ≡ expand_token finalize (c ∷ i) t m
  after_negation c i f h = elim (Bool-cases (c == b'-')) [
    | inl e ↦
        let same =
          ap (λ d. text_eq (d ∷ i) m) ((==_iff c b'-').0 e)
          ∙ ap (λ u. text_eq (b'-' ∷ u) m) (sym (flag_of-minus c i e))
          ∙ h in
        rw (of_minus finalize c i s m e) (rw (of_minus finalize c i t m e) (rw f (rw same refl)))
    | inr e ↦
        rw (of_plus finalize c i s m e) (rw (of_plus finalize c i t m e) (ground (arith, h, e)))
  ]

pub untouched :
    (finalize : Bool) (c : ℕ) (i : Text) (s : Members) (m : Text)
    → clears (c ∷ i) ≡ false
    → text_eq (flag_of (c ∷ i)) m ≡ false
    → text_eq (b'-' ∷ flag_of (c ∷ i)) m ≡ false
    → expand_token finalize (c ∷ i) s m ≡ s m
untouched finalize c i s m n h k = elim (Bool-cases (c == b'-')) [
  | inl e ↦
      let other =
        ap (λ d. text_eq (d ∷ i) m) ((==_iff c b'-').0 e)
        ∙ ap (λ u. text_eq (b'-' ∷ u) m) (sym (flag_of-minus c i e))
        ∙ k in
      rw (of_minus finalize c i s m e) (rw other (ground (arith, n, h, e)))
  | inr e ↦ rw (of_plus finalize c i s m e) (ground (arith, h, k, e))
]

-- A finalized set gains no negation.
abbrev pub NoNegations : Members → Type 0
NoNegations orig = (m : Text) → orig (b'-' ∷ m) ≡ false

finalized-NoNegations :
    (tokens : List Text) (orig : Members)
    → NoNegations orig
    → NoNegations (expanded true tokens orig)
unfolding expanded
finalized-NoNegations [] orig h m = h m
finalized-NoNegations ([] ∷ tokens) orig h m = finalized-NoNegations tokens orig h m
finalized-NoNegations ((c ∷ i) ∷ tokens) orig h m =
    let before = finalized-NoNegations tokens orig h m in
    elim (Bool-cases (c == b'-')) [
      | inl e ↦
          rw (of_minus true c i (expanded true tokens orig) (b'-' ∷ m) e) (ground (arith, before))
      | inr e ↦
          rw (of_plus true c i (expanded true tokens orig) (b'-' ∷ m) e) (ground (arith, before, e))
    ]

-- A flag of the list decides on the member: it is the member, or the member is its negation.
abbrev pub decided : List Text → Text → Bool
decided finalized m = any (λ n. text_eq n m || text_eq (b'-' ∷ n) m) finalized

pub seen-decided :
    (finalized : List Text) (n m : Text)
    → contains finalized n ≡ true
    → decided finalized m ≡ false
    → (text_eq n m ≡ false) × (text_eq (b'-' ∷ n) m ≡ false)
seen-decided [] n m h k = cc
seen-decided (x ∷ xs) n m h k = elim (Bool-cases (text_eq n x)) [
  | inl e ↦ rw (text_eq_sound n x e) (ground arith, ground arith)
  | inr e ↦ seen-decided xs n m (ground (arith, h, e)) (ground (arith, k))
]

-- What the unfinalized tokens decide, and a set without negations else.
pub after_kept :
    (finalize : Bool) (c : ℕ) (i : Text) (xs ys : List Text) (orig : Members) (m : Text)
    → (finalize ≡ false) ⊎ NoNegations orig
    → text_eq (b'-' ∷ flag_of (c ∷ i)) m ≡ true
    → expanded finalize ((c ∷ i) ∷ xs) orig m ≡ expanded finalize ((c ∷ i) ∷ ys) orig m
unfolding expanded
after_kept false c i xs ys orig m clean h =
    after_negation false (expanded false xs orig) (expanded false ys orig) m c i refl h
after_kept true c i xs ys orig m (inl f) h = cc
after_kept true c i xs ys orig m (inr none_there) h =
    let e = text_eq_sound (b'-' ∷ flag_of (c ∷ i)) m h in
    after_equal true (expanded true xs orig) (expanded true ys orig) m (c ∷ i) (
      ap (expanded true xs orig) (sym e)
      ∙ finalized-NoNegations xs orig none_there (flag_of (c ∷ i))
      ∙ sym (finalized-NoNegations ys orig none_there (flag_of (c ∷ i)))
      ∙ ap (expanded true ys orig) e)
