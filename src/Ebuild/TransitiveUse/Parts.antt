-- ===== src/Ebuild/TransitiveUse/Parts.antt =====
-- The parts of a rendered flag.
use pkgcore.Prelude.{
  ℕ, Bool, true, false, not, ◌&&◌, ◌||◌, ◌≡◌, refl, List, [], ◌∷◌, ◌++◌, ◌==◌, if◌then◌else◌, arith,
}
use pkgcore.Prelude.Text.{Text}
use pkgcore.Ebuild.Conditionals.Printed.{drop_last-append}
use pkgcore.Ebuild.TransitiveUse.{
  last_char, is_negated, is_conditional_char, lstrip_mark, rstrip_conditional, bare_flag, raw_flag,
}

-- What stands between the brackets for a flag that follows the package's own: `x?`, `!x?`, `x=` or
-- `!x=`.
pub record Variable : Type 0 where
  pub negated : Bool
  pub name : Text
  pub same : Bool

unfoldable pub render_variable : Variable → Text
render_variable v =
    let tail = v.name ++ (if v.same then b'=' else b'?') ∷ [] in
    if v.negated then b'!' ∷ tail else tail

-- A name that neither begins as a negation nor ends as an operator or a default does.
unfoldable pub is_use_name : Text → Bool
unfolding last_char
is_use_name [] = false
is_use_name (c ∷ s) =
    not (c == b'!') && not (is_conditional_char (last_char (c ∷ s)) || last_char (c ∷ s) == b')')

abbrev pub all_use_names : List Variable → Bool
all_use_names [] = true
all_use_names (v ∷ vs) = is_use_name v.name && all_use_names vs

pub last_char-append : (s : Text) (c : ℕ) → last_char (s ++ c ∷ []) ≡ c
unfolding last_char
last_char-append [] c = refl
last_char-append (d ∷ []) c = refl
last_char-append (d ∷ e ∷ s) c = last_char-append (e ∷ s) c

rstrip_conditional-append :
    (c : ℕ) (s : Text) (q : ℕ)
    → is_conditional_char (last_char (c ∷ s)) ≡ false
    → is_conditional_char q ≡ true
    → rstrip_conditional (c ∷ s ++ q ∷ []) ≡ c ∷ s
unfolding last_char rstrip_conditional
rstrip_conditional-append c [] q h e = ground arith
rstrip_conditional-append c (d ∷ s) q h e = rw (rstrip_conditional-append d s q h e) refl

-- What the code takes out of a rendered flag.
pub record Parts (flag name : Text) (negated : Bool) (q : ℕ) : Type 0 where
  pub last : last_char flag ≡ q
  pub marked : is_negated flag ≡ negated
  pub bare : bare_flag flag ≡ name
  pub raw : raw_flag name ≡ name
  pub stripped : rstrip_conditional (lstrip_mark flag) ≡ name

module _ (c : ℕ) (s : Text) (named : is_use_name (c ∷ s) ≡ true) where
  not_marked : (c == b'!') ≡ false
  unfolding is_use_name
  not_marked = ground (arith, named)

  plain_end : is_conditional_char (last_char (c ∷ s)) ≡ false
  unfolding is_use_name
  plain_end = ground (arith, named)

  no_default : (last_char (c ∷ s) == b')') ≡ false
  unfolding is_use_name
  no_default = ground (arith, named)

  raw_name : raw_flag (c ∷ s) ≡ c ∷ s
  unfolding raw_flag
  raw_name = rw no_default refl

  Parts-plain : (q : ℕ) → is_conditional_char q ≡ true → Parts (c ∷ s ++ q ∷ []) (c ∷ s) false q
  unfolding bare_flag lstrip_mark
  Parts-plain q e = record {
    last = last_char-append (c ∷ s) q;
    marked = not_marked;
    bare = rw not_marked (drop_last-append (c ∷ s) q);
    raw = raw_name;
    stripped = rw not_marked (rstrip_conditional-append c s q plain_end e);
  }

  Parts-negated :
      (q : ℕ) → is_conditional_char q ≡ true → Parts (b'!' ∷ c ∷ s ++ q ∷ []) (c ∷ s) true q
  unfolding bare_flag lstrip_mark last_char
  Parts-negated q e = record {
    last = last_char-append (c ∷ s) q;
    marked = refl;
    bare = drop_last-append (c ∷ s) q;
    raw = raw_name;
    stripped = rw not_marked (rstrip_conditional-append c s q plain_end e);
  }

abbrev pub operator_of : Bool → ℕ
operator_of same = if same then b'=' else b'?'

operator_of-conditional : (same : Bool) → is_conditional_char (operator_of same) ≡ true
operator_of-conditional true = refl
operator_of-conditional false = refl

pub Parts-rendered :
    (negated same : Bool) (name : Text)
    → is_use_name name ≡ true
    → Parts
        (render_variable (record { negated = negated; name = name; same = same }))
        name
        negated
        (operator_of same)
unfolding render_variable is_use_name
Parts-rendered negated same [] h = cc
Parts-rendered true same (c ∷ s) h = Parts-negated c s h _ (operator_of-conditional same)
Parts-rendered false same (c ∷ s) h = Parts-plain c s h _ (operator_of-conditional same)
