-- ===== src/Ebuild/PkgUpdates/Steps.antt =====
-- What a line of src/pkgcore/ebuild/pkg_updates.py does to what the deques will give.
use mathlib.Core.List.{flat_map}
use pkgcore.Prelude.{
  ==_iff, ==_refl, ℕ, Bool, true, false, ◌≡◌, refl, sym, ap, ◌∙◌, ◌⊎◌, List, [], ◌∷◌, ◌++◌, Option,
  none, some, arith, ◌==◌, length, all, all-append, if◌then◌else◌, Bool-cases, Option-cases, inl,
  inr, append_assoc,
}
use mathlib.Core.Path.{subst}
use pkgcore.Prelude.Text.{Text, text_eq}
use pkgcore.Prelude.Text.Laws.{text_eq_sound, text_eq_refl}
use pkgcore.Restrictions.Solutions.Defined.{is_some}
use pkgcore.Ebuild.PkgUpdates.{
  Spec, Command, move, slotmove, command, State, node, extend, ensure, start_of, tail_of, tail,
  extend_tail, relink, make_mods,
}
use pkgcore.Ebuild.PkgUpdates.Nodes.{node-extend, length-extend, opened, opened-append, newer}
use pkgcore.Ebuild.PkgUpdates.{Event, moving, slotmoving, apply_move, apply_slotmove, apply_event}
use pkgcore.Ebuild.PkgUpdates.Solved.{
  mods_at, Good, Solves, fresh_mods, mods-fresh, kept_key, new_or_old, fresh-Good, fresh-Solves,
  fresh_value,
}
use pkgcore.Ebuild.PkgUpdates.Relinked.{
  distinct_tail, same_tail, relink-Good, relink-Solves, mods_after,
}

-- From s to t, where f is to come after t, and g before. A key that only t has is new, and its
-- chain gives what was to come for it.
pub record Step (v : ℕ → List Command) (s t : State) (g f : Text → List Command) : Type 0 where
  pub good : Good t
  pub back : Solves v t f → Solves v s g
  pub keeps : (j : Text) → mods_at t j ≡ none → mods_at s j ≡ none
  pub same : (j : Text) → mods_at t j ≡ none → g j ≡ f j
  pub starts :
      Solves v t f
      → (j : Text) (a i : ℕ) → mods_at t j ≡ some (a, i)
      → ((l : ℕ) × (mods_at s j ≡ some (a, l))) ⊎ ((mods_at s j ≡ none) × (v a ≡ g j))

module _ (v : ℕ → List Command) where
  pub no-Step : (s : State) (f : Text → List Command) → Good s → Step v s s f f
  no-Step s f h = record {
    good = h;
    back = λ o. o;
    keeps = λ j k. k;
    same = λ j k. refl;
    starts = λ o j a i k. inl (i, k);
  }

  pub two_steps :
      (s t u : State) (g f h : Text → List Command)
      → Step v s t g f
      → Step v t u f h
      → Step v s u g h
  two_steps s t u g f h p q = record {
    good = q.good;
    back = λ o. p.back (q.back o);
    keeps = λ j k. p.keeps j (q.keeps j k);
    same = λ j k. p.same j (q.keeps j k) ∙ q.same j k;
    starts = λ o j a i k. elim (q.starts o j a i k) [
      | inl (l, m) ↦ p.starts (q.back o) j a l m
      | inr (m, e) ↦ inr (p.keeps j m, e ∙ sym (p.same j m))
    ];
  }

  fresh-Step :
      (s : State) (k : Text) (f : Text → List Command)
      → Good s
      → mods_at s k ≡ none
      → Step v s (fresh_mods s k) f f
  fresh-Step s k f g n = record {
    good = fresh-Good s k n g;
    back = fresh-Solves s k n v f g;
    keeps = λ j m. elim (Option-cases (mods_at s j)) [
      | inl e ↦ e
      | inr ((a, i), e) ↦ ground (arith, ap is_some (sym m ∙ kept_key s k n j a i e))
    ];
    same = λ j m. refl;
    starts = λ o j a i m. elim (new_or_old s k n j a i m) [
      | inl e ↦ inl (i, e)
      | inr (e, p, q) ↦ inr (
        ap (mods_at s) (text_eq_sound j k e) ∙ n,
        ap v p ∙ fresh_value s k n v f o ∙ sym (ap f (text_eq_sound j k e)),
      )
    ];
  }

  pub ensure-Step :
      (s : State) (k : Text) (f : Text → List Command) → Good s → Step v s (ensure s k) f f
  unfolding ensure
  ensure-Step s k f g = elim (Option-cases (mods_at s k)) [
    | inl e ↦ subst (λ o. Step v s (make_mods s k o) f f) (sym e) (fresh-Step s k f g e)
    | inr (m, e) ↦ subst (λ o. Step v s (make_mods s k o) f f) (sym e) (no-Step s f g)
  ]

ensure_self : (s : State) (k : Text) → (m : ℕ × ℕ) × (mods_at (ensure s k) k ≡ some m)
unfolding ensure
ensure_self s k = elim (Option-cases (mods_at s k)) [
  | inl e ↦ (
    (length s.nodes, length s.nodes),
    ap (λ o. mods_at (make_mods s k o) k) e
        ∙ mods-fresh s k k
        ∙ ap (λ b. if b then some (length s.nodes, length s.nodes) else mods_at s k)
            (text_eq_refl k),
  )
  | inr (m, e) ↦ (m, ap (λ o. mods_at (make_mods s k o) k) e ∙ e)
]

ensure-other :
    (s : State) (k j : Text) (m : ℕ × ℕ) → mods_at s j ≡ some m → mods_at (ensure s k) j ≡ some m
unfolding ensure
ensure-other s k j m h = elim (Option-cases (mods_at s k)) [
  | inl e ↦ ap (λ o. mods_at (make_mods s k o) j) e ∙ kept_key s k e j (m.0) (m.1) h
  | inr (n, e) ↦ ap (λ o. mods_at (make_mods s k o) j) e ∙ h
]

-- what a line that is carried out says of a key, before what is to come for its name afterwards
unfoldable pub told : Option Event → (Text → List Command) → Text → List Command
told none f k = f k
told (some (moving src trg)) f k = if text_eq k src.key then move src trg ∷ f trg.key else f k
told (some (slotmoving src src_slot new)) f k =
    if text_eq k src.key then slotmove src_slot new ∷ f k else f k

module _ (v : ℕ → List Command) (f : Text → List Command) where
  relink-Step :
      (s : State) (src trg : Spec) (m n : ℕ × ℕ)
      → mods_at s src.key ≡ some m
      → mods_at s trg.key ≡ some n
      → Good s
      → f src.key ≡ []
      → Step v s (relink s src trg) (told (some (moving src trg)) f) f
  unfolding told
  relink-Step s src trg (a, ts) (b, ends) h k g gone = record {
    good = relink-Good s src trg a ts b ends h k g;
    back = λ o. relink-Solves s src trg a ts b ends h k g v f o gone;
    keeps = λ j e. elim (Bool-cases (text_eq j trg.key)) [
      | inl x ↦ ground (
        arith,
        ap is_some (
            sym e
            ∙ mods_after s src trg a ts b ends h k g j
            ∙ ap (λ c. if c then some (b, length s.nodes) else mods_at s j) x),
      )
      | inr x ↦
          sym (
            mods_after s src trg a ts b ends h k g j
            ∙ ap (λ c. if c then some (b, length s.nodes) else mods_at s j) x)
          ∙ e
    ];
    same = λ j e.
        let other : text_eq j src.key ≡ false = elim (Bool-cases (text_eq j src.key)) [
          | inr x ↦ x
          | inl x ↦ elim (Bool-cases (text_eq j trg.key)) [
            | inl y ↦ ground (
              arith,
              ap is_some (
                  sym e
                  ∙ mods_after s src trg a ts b ends h k g j
                  ∙ ap (λ c. if c then some (b, length s.nodes) else mods_at s j) y),
            )
            | inr y ↦ ground (
              arith,
              ap is_some (
                  sym e
                  ∙ mods_after s src trg a ts b ends h k g j
                  ∙ ap (λ c. if c then some (b, length s.nodes) else mods_at s j) y
                  ∙ ap (mods_at s) (text_eq_sound j src.key x)
                  ∙ h),
            )
          ]
        ] in
        ap (λ c. if c then move src trg ∷ f trg.key else f j) other;
    starts = λ o j c i e. elim (Bool-cases (text_eq j trg.key)) [
      | inl x ↦
          let at_new = ap start_of (
            sym e
            ∙ mods_after s src trg a ts b ends h k g j
            ∙ ap (λ y. if y then some (b, length s.nodes) else mods_at s j) x) in
          inl (
            ends,
            ap (mods_at s) (text_eq_sound j trg.key x) ∙ k ∙ ap (λ y. some (y, ends)) (sym at_new),
          )
      | inr x ↦ inl (
        i,
        sym (
              mods_after s src trg a ts b ends h k g j
              ∙ ap (λ y. if y then some (b, length s.nodes) else mods_at s j) x)
            ∙ e,
      )
    ];
  }

  move-Step :
      (s : State) (src trg : Spec)
      → Good s
      → f src.key ≡ []
      → Step v s (apply_move s src trg) (told (some (moving src trg)) f) f
  unfolding apply_move
  move-Step s src trg g gone =
      let fs = told (some (moving src trg)) f in
      let s1 = ensure s src.key in
      let s2 = ensure s1 trg.key in
      let p = ensure-Step v s src.key fs g in
      let q = ensure-Step v s1 trg.key fs p.good in
      let (m, e) = ensure_self s src.key in
      let (n, d) = ensure_self s1 trg.key in
      two_steps v s s1 (relink s2 src trg) fs fs f p (
        two_steps v s1 s2 (relink s2 src trg) fs fs f q
          (relink-Step s2 src trg m n (ensure-other s1 trg.key src.key m e) d q.good gone))

module _ (v : ℕ → List Command) (f : Text → List Command) (s : State) (src src_slot : Spec)
    (slot_to : Text) (a ts : ℕ) (h : mods_at s src.key ≡ some (a, ts)) (g : Good s) where
  abbrev grown : State
  grown = extend_tail s src.key (command (slotmove src_slot slot_to) ∷ [])

  node_grown :
      (i : ℕ)
      → node grown.nodes i ≡ (
          if i == ts
          then node s.nodes ts ++ command (slotmove src_slot slot_to) ∷ []
          else node s.nodes i)
  node_grown i =
      ap (λ x. node (extend s.nodes x (command (slotmove src_slot slot_to) ∷ [])) i) (ap tail_of h)
      ∙ node-extend s.nodes ts (command (slotmove src_slot slot_to) ∷ []) i (g.below src.key a ts h)

  length_grown : length grown.nodes ≡ length s.nodes
  length_grown = length-extend s.nodes (tail s src.key) (command (slotmove src_slot slot_to) ∷ [])

  grown-Good : Good grown
  grown-Good = record {
    below = λ k c i e. ground (arith, g.below k c i e, length_grown);
    apart = g.apart;
    once = g.once;
    ordered = λ i. ap (all (newer i)) (node_grown i) ∙ elim (Bool-cases (i == ts)) [
      | inr e ↦ rw e (g.ordered i)
      | inl e ↦ rw e (
          all-append (newer i) (node s.nodes ts) (command (slotmove src_slot slot_to) ∷ [])
          ∙ ground
              (arith, ap (λ x. all (newer x) (node s.nodes ts)) ((==_iff i ts).0 e) ∙ g.ordered ts))
    ];
  }

  node_untouched : (i : ℕ) → (i == ts) ≡ false → node grown.nodes i ≡ node s.nodes i
  node_untouched i e =
      node_grown i
      ∙ ap
          (λ c.
            if c
            then node s.nodes ts ++ command (slotmove src_slot slot_to) ∷ []
            else node s.nodes i)
          e

  grown_tail :
      Solves v grown f → v ts ≡ opened v (node s.nodes ts) ++ slotmove src_slot slot_to ∷ f src.key
  unfolding flat_map
  grown_tail o =
      o.at_tail src.key a ts h
      ∙ ap (λ z. opened v z ++ f src.key)
          (node_grown ts
            ∙ ap
                (λ c.
                  if c
                  then node s.nodes ts ++ command (slotmove src_slot slot_to) ∷ []
                  else node s.nodes ts)
                (==_refl ts))
      ∙ ap (λ z. z ++ f src.key)
          (opened-append v (node s.nodes ts) (command (slotmove src_slot slot_to) ∷ []))
      ∙ append_assoc (opened v (node s.nodes ts)) (slotmove src_slot slot_to ∷ []) (f src.key)

  grown-Step : Step v s grown (told (some (slotmoving src src_slot slot_to)) f) f
  unfolding told
  grown-Step = record {
    good = grown-Good;
    back = λ o. record {
      at_tail = λ k c i e. elim (Bool-cases (text_eq k src.key)) [
        | inl x ↦
            let is_ts = same_tail s k src.key c a i ts x e h in
            ap v is_ts
            ∙ grown_tail o
            ∙ ap (λ z. opened v (node s.nodes z) ++ slotmove src_slot slot_to ∷ f src.key)
                (sym is_ts)
            ∙ ap (λ z. opened v (node s.nodes i) ++ slotmove src_slot slot_to ∷ f z)
                (sym (text_eq_sound k src.key x))
            ∙ ap
                (λ z.
                  opened v (node s.nodes i) ++ (if z then slotmove src_slot slot_to ∷ f k else f k))
                (sym x)
        | inr x ↦
            o.at_tail k c i e
            ∙ ap (λ z. opened v z ++ f k)
                (node_untouched i (distinct_tail s g k src.key c a i ts x e h))
            ∙ ap
                (λ z.
                  opened v (node s.nodes i) ++ (if z then slotmove src_slot slot_to ∷ f k else f k))
                (sym x)
      ];
      elsewhere = λ i e m.
          o.elsewhere i (ground (arith, e, length_grown)) m
          ∙ ap (opened v) (node_untouched i (m src.key a ts h));
    };
    keeps = λ j e. e;
    same = λ j e.
        let other : text_eq j src.key ≡ false = elim (Bool-cases (text_eq j src.key)) [
          | inr x ↦ x
          | inl x ↦
              ground (arith, ap is_some (sym e ∙ ap (mods_at s) (text_eq_sound j src.key x) ∙ h))
        ] in
        ap (λ c. if c then slotmove src_slot slot_to ∷ f j else f j) other;
    starts = λ o j c i e. inl (i, e);
  }

-- the key that a line moves away
unfoldable pub leaves_key : Option Event → Text → Bool
leaves_key none k = false
leaves_key (some (moving src trg)) k = text_eq k src.key
leaves_key (some (slotmoving src src_slot slot_to)) k = false

module _ (v : ℕ → List Command) (f : Text → List Command) where
  slotmove-Step :
      (s : State) (src src_slot : Spec) (slot_to : Text)
      → Good s
      → Step v s
          (apply_slotmove s src src_slot slot_to)
          (told (some (slotmoving src src_slot slot_to)) f)
          f
  unfolding apply_slotmove
  slotmove-Step s src src_slot slot_to g =
      let fs = told (some (slotmoving src src_slot slot_to)) f in
      let s1 = ensure s src.key in
      let p = ensure-Step v s src.key fs g in
      let (m, e) = ensure_self s src.key in
      two_steps v s s1 (apply_slotmove s src src_slot slot_to) fs fs f p
        (grown-Step v f s1 src src_slot slot_to (m.0) (m.1) e p.good)

  pub event-Step :
      (s : State) (e : Option Event)
      → Good s
      → ((k : Text) → leaves_key e k ≡ true → f k ≡ [])
      → Step v s (apply_event s e) (told e f) f
  unfolding apply_event told leaves_key
  event-Step s none g gone = no-Step v s f g
  event-Step s (some (moving src trg)) g gone =
      move-Step v f s src trg g (gone src.key (text_eq_refl src.key))
  event-Step s (some (slotmoving src src_slot slot_to)) g gone =
      slotmove-Step s src src_slot slot_to g
