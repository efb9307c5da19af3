-- ===== src/Ebuild/PkgUpdates/Lines.antt =====
-- The lines of src/pkgcore/ebuild/pkg_updates.py: what they hold for a package that is followed
-- through its moves, and that no more is said of a name that has moved.
use pkgcore.Prelude.{
  ℕ, Bool, true, false, not, ◌||◌, ◌≡◌, refl, sym, ap, ◌∙◌, ◌>>=◌, >>=-eq-some, List, [], ◌∷◌, ◌++◌,
  Option, none, some, arith, Bool-cases, Option-cases, inl, inr,
}
use mathlib.Core.Path.{subst}
use pkgcore.Prelude.Text.{Text, text_eq, codes}
use pkgcore.Prelude.Text.Laws.{text_eq_sound}
use pkgcore.Restrictions.Solutions.Defined.{is_some}
use pkgcore.Dicts.{Dict, lookup, put, lookup-put}
use pkgcore.Ebuild.PkgUpdates.{Spec, Command, State, ensure, relink, make_mods}
use pkgcore.Ebuild.PkgUpdates.{
  Event, moving, slotmoving, apply_move, apply_slotmove, apply_event, is_moved, read_move,
  read_slotmove, read_move_words, read_slotmove_words, read_words, split_words, process_updates,
}
use pkgcore.Ebuild.PkgUpdates.Solved.{Good}
use pkgcore.Ebuild.PkgUpdates.Steps.{Step, no-Step, two_steps, told, leaves_key, event-Step}

abbrev pub moved_after : Dict Text Spec → Option Event → Dict Text Spec
moved_after moved (some (moving src trg)) = put text_eq src.key trg moved
moved_after moved _ = moved

abbrev pub follow_line :
    Option (Option Event)
    → (Dict Text Spec → Text → List Command)
    → Dict Text Spec
    → Text
    → List Command
follow_line none rest moved k = []
follow_line (some e) rest moved k = told e (rest (moved_after moved e)) k

abbrev pub line_read : Option (Option Event) → (Dict Text Spec → Bool) → Dict Text Spec → Bool
line_read none rest moved = false
line_read (some e) rest moved = rest (moved_after moved e)

module _ (atom : Text → Option Spec) where
  -- The commands that the lines give for the package named k, with the moves there have been.
  unfoldable pub follow : Dict Text Spec → List Text → Text → List Command
  follow moved [] k = []
  follow moved (raw ∷ lines) k =
      follow_line (read_words atom moved (split_words raw)) (λ m j. follow m lines j) moved k

  -- No line makes `atom` raise.
  unfoldable pub readable : Dict Text Spec → List Text → Bool
  readable moved [] = true
  readable moved (raw ∷ lines) =
      line_read (read_words atom moved (split_words raw)) (λ m. readable m lines) moved

  -- a line that is carried out is not about a package that has moved
  abbrev pub free : Dict Text Spec → Option Event → Bool
  free moved none = true
  free moved (some (moving src trg)) = not (is_moved moved src)
  free moved (some (slotmoving src src_slot new)) = not (is_moved moved src)

  pub free-read_move :
      (moved : Dict Text Spec) (src trg : Spec) → free moved (read_move moved src trg) ≡ true
  free-read_move moved src trg =
      elim (Bool-cases (is_some src.fullver || (is_some trg.fullver || is_moved moved src))) [
        | inl e ↦ rw e refl
        | inr e ↦ rw e (ground (arith, e))
      ]

  abbrev pub free_in : Dict Text Spec → Option (Option Event) → Bool
  free_in moved none = true
  free_in moved (some e) = free moved e

  pub free-slots :
      (moved : Dict Text Spec) (src : Spec) (new : Text)
      → is_moved moved src ≡ false
      → (a b : Option Spec)
      → free_in moved (a >>= λ x. b >>= λ y. some (some (slotmoving src x new))) ≡ true
  free-slots moved src new h none b = refl
  free-slots moved src new h (some x) none = refl
  free-slots moved src new h (some x) (some y) = ap not h

  pub free-read_slotmove :
      (moved : Dict Text Spec) (src : Spec) (old new : Text)
      → free_in moved (read_slotmove atom moved src old new) ≡ true
  unfolding read_slotmove
  free-read_slotmove moved src old new =
      elim (Bool-cases (is_moved moved src || is_some src.slot)) [
        | inl e ↦ rw e refl
        | inr e ↦ rw e (
            free-slots moved src new (ground (arith, e)) (atom (src.text ++ 58 ∷ old))
              (atom (src.key ++ 58 ∷ new)))
      ]

  pub free-moves :
      (moved : Dict Text Spec) (a b : Option Spec)
      → free_in moved (a >>= λ src. b >>= λ trg. some (read_move moved src trg)) ≡ true
  free-moves moved none b = refl
  free-moves moved (some src) none = refl
  free-moves moved (some src) (some trg) = free-read_move moved src trg

  pub free-read_move_words :
      (moved : Dict Text Spec) (ws : List Text)
      → free_in moved (read_move_words atom moved ws) ≡ true
  free-read_move_words moved [] = refl
  free-read_move_words moved (a ∷ []) = refl
  free-read_move_words moved (a ∷ b ∷ []) = free-moves moved (atom a) (atom b)
  free-read_move_words moved (a ∷ b ∷ c ∷ ws) = refl

  pub free-slot_source :
      (moved : Dict Text Spec) (a : Option Spec) (old new : Text)
      → free_in moved (a >>= λ src. read_slotmove atom moved src old new) ≡ true
  free-slot_source moved none old new = refl
  free-slot_source moved (some src) old new = free-read_slotmove moved src old new

  pub free-read_slotmove_words :
      (moved : Dict Text Spec) (ws : List Text)
      → free_in moved (read_slotmove_words atom moved ws) ≡ true
  free-read_slotmove_words moved [] = refl
  free-read_slotmove_words moved (a ∷ []) = refl
  free-read_slotmove_words moved (a ∷ b ∷ []) = refl
  free-read_slotmove_words moved (a ∷ b ∷ c ∷ []) = free-slot_source moved (atom a) b c
  free-read_slotmove_words moved (a ∷ b ∷ c ∷ d ∷ ws) = refl

  pub free-read_words :
      (moved : Dict Text Spec) (ws : List Text) → free_in moved (read_words atom moved ws) ≡ true
  unfolding read_words
  free-read_words moved [] = refl
  free-read_words moved (w ∷ ws) = elim (Bool-cases (text_eq w (codes "move"))) [
    | inl e ↦ rw e (free-read_move_words moved ws)
    | inr e ↦ elim (Bool-cases (text_eq w (codes "slotmove"))) [
      | inl d ↦ rw (e, d) (free-read_slotmove_words moved ws)
      | inr d ↦ rw (e, d) refl
    ]
  ]

  -- Nothing more is said of a name that has moved.
  pub told_gone :
      (moved : Dict Text Spec) (e : Option Event) (f : Text → List Command) (k : Text)
      → free moved e ≡ true
      → is_some (lookup text_eq k moved) ≡ true
      → f k ≡ []
      → told e f k ≡ []
  unfolding told
  told_gone moved none f k h m n = n
  told_gone moved (some (moving src trg)) f k h m n = elim (Bool-cases (text_eq k src.key)) [
    | inr e ↦ rw e n
    | inl e ↦
        ground (arith, h, m, ap (λ x. is_some (lookup text_eq x moved)) (text_eq_sound k src.key e))
  ]
  told_gone moved (some (slotmoving src x new)) f k h m n = elim (Bool-cases (text_eq k src.key)) [
    | inr e ↦ rw e n
    | inl e ↦
        ground (arith, h, m, ap (λ x. is_some (lookup text_eq x moved)) (text_eq_sound k src.key e))
  ]

  pub still_moved :
      (moved : Dict Text Spec) (e : Option Event) (k : Text)
      → is_some (lookup text_eq k moved) ≡ true
      → is_some (lookup text_eq k (moved_after moved e)) ≡ true
  still_moved moved none k h = h
  still_moved moved (some (slotmoving src x new)) k h = h
  still_moved moved (some (moving src trg)) k h =
      ap is_some (lookup-put text_eq text_eq_sound k src.key trg moved) ∙ ground (arith, h)

  pub follow_gone :
      (moved : Dict Text Spec) (lines : List Text) (k : Text)
      → is_some (lookup text_eq k moved) ≡ true
      → follow moved lines k ≡ []
  unfolding follow
  follow_gone moved [] k h = refl
  follow_gone moved (raw ∷ lines) k h =
      elim (Option-cases (read_words atom moved (split_words raw))) [
        | inl e ↦ ap (λ o. follow_line o (λ m j. follow m lines j) moved k) e
        | inr (e, d) ↦
            ap (λ o. follow_line o (λ m j. follow m lines j) moved k) d
            ∙ told_gone moved e (follow (moved_after moved e) lines) k
                (ap (free_in moved) (sym d) ∙ free-read_words moved (split_words raw)) h
                (follow_gone (moved_after moved e) lines k (still_moved moved e k h))
      ]

  pub moved_make : (t : State) (k : Text) (o : Option (ℕ × ℕ)) → (make_mods t k o).moved ≡ t.moved
  moved_make t k none = refl
  moved_make t k (some m) = refl

  pub moved_ensure : (t : State) (k : Text) → (ensure t k).moved ≡ t.moved
  unfolding ensure
  moved_ensure t k = moved_make t k (lookup text_eq k t.mods)

  pub moved_apply : (s : State) (e : Option Event) → (apply_event s e).moved ≡ moved_after s.moved e
  unfolding apply_event apply_move apply_slotmove relink
  moved_apply s none = refl
  moved_apply s (some (moving src trg)) =
      ap (put text_eq src.key trg)
        (moved_ensure (ensure s src.key) trg.key ∙ moved_ensure s src.key)
  moved_apply s (some (slotmoving src x new)) = moved_ensure s src.key

  pub left_moved :
      (moved : Dict Text Spec) (e : Option Event) (k : Text)
      → leaves_key e k ≡ true
      → is_some (lookup text_eq k (moved_after moved e)) ≡ true
  unfolding leaves_key
  left_moved moved none k h = ground (arith, h)
  left_moved moved (some (slotmoving src x new)) k h = ground (arith, h)
  left_moved moved (some (moving src trg)) k h =
      ap is_some (lookup-put text_eq text_eq_sound k src.key trg moved) ∙ ground (arith, h)

  pub process_updates-Step :
      (v : ℕ → List Command) (lines : List Text) (s t : State)
      → process_updates atom lines s ≡ some t
      → Good s
      → Step v s t (follow s.moved lines) (λ k. [])
  unfolding process_updates follow
  process_updates-Step v [] s t h g =
      subst (λ u. Step v s u (λ k. []) (λ k. [])) (some_same h) (no-Step v s (λ k. []) g)
    where
      some_same : some s ≡ some t → s ≡ t
      some_same m = ap (λ o. elim o [ none ↦ s | some x ↦ x ]) m
  process_updates-Step v (raw ∷ lines) s t h g =
      let (e, d, rest) =
        >>=-eq-some (read_words atom s.moved (split_words raw))
          (λ e. process_updates atom lines (apply_event s e)) h in
      let f = follow (moved_after s.moved e) lines in
      let first =
        event-Step v f s e g
          (λ k m. follow_gone (moved_after s.moved e) lines k (left_moved s.moved e k m)) in
      let others =
        subst (λ m. Step v (apply_event s e) t (follow m lines) (λ k. [])) (moved_apply s e)
          (process_updates-Step v lines (apply_event s e) t rest first.good) in
      subst (λ o. Step v s t (follow_line o (λ m j. follow m lines j) s.moved) (λ k. [])) (sym d)
        (two_steps v s (apply_event s e) t (told e f) f (λ k. []) first others)

  pub process_updates-defined :
      (lines : List Text) (s : State)
      → readable s.moved lines ≡ true
      → is_some (process_updates atom lines s) ≡ true
  unfolding process_updates readable
  process_updates-defined [] s h = refl
  process_updates-defined (raw ∷ lines) s h =
      elim (Option-cases (read_words atom s.moved (split_words raw))) [
        | inl e ↦ ground (arith, ap (λ o. line_read o (λ m. readable m lines) s.moved) (sym e) ∙ h)
        | inr (e, d) ↦
            ap (λ o. is_some (o >>= λ x. process_updates atom lines (apply_event s x))) d
            ∙ process_updates-defined lines (apply_event s e) (
                ap (λ m. readable m lines) (moved_apply s e)
                ∙ ap (λ o. line_read o (λ m. readable m lines) s.moved) (sym d)
                ∙ h)
      ]
