-- ===== src/Ebuild/Cpv/Parsed.antt =====
-- `CPV(...)` keeps the text that it parses.
use pkgcore.Prelude.{
  ℕ, true, false, ◌≡◌, refl, ap, sym, ◌∙◌, List, [], ◌∷◌, ◌++◌, Option, none, some, ◌>>=◌, ◌==◌,
  ==_iff, leb, is_empty, length, arith, Bool-cases, inl, inr, Option-cases, append_assoc, and_left,
}
use pkgcore.Prelude.Text.{Text, split, join, push, int}
use pkgcore.Ebuild.Version.{Revision, make_revision}
use pkgcore.Ebuild.Cpv.{rsplit_slash, take_revision, make_fullver, tail, reset_cpvstr}
use pkgcore.Ebuild.Names.{pop, isvalid_rev}

join-push : (sep c : ℕ) (ps : List Text) → join sep (push c ps) ≡ c ∷ join sep ps
unfolding join
join-push sep c [] = refl
join-push sep c (p ∷ []) = refl
join-push sep c (p ∷ q ∷ ps) = refl

is_empty-push : (c : ℕ) (ps : List Text) → is_empty (push c ps) ≡ false
is_empty-push c [] = refl
is_empty-push c (p ∷ ps) = refl

split_cons : (sep : ℕ) (s : Text) → is_empty (split sep s) ≡ false
unfolding split
split_cons sep [] = refl
split_cons sep (c ∷ s) = ground (arith, is_empty-push c (split sep s))

join-empty :
    (sep : ℕ) (ps : List Text) → is_empty ps ≡ false → join sep ([] ∷ ps) ≡ sep ∷ join sep ps
unfolding join
join-empty sep [] h = cc
join-empty sep (p ∷ ps) h = refl

pub join-split : (sep : ℕ) (s : Text) → join sep (split sep s) ≡ s
unfolding split join
join-split sep [] = refl
join-split sep (c ∷ s) = elim (Bool-cases (c == sep)) [
  | inl e ↦
      rw e (
        join-empty sep (split sep s) (split_cons sep s) ∙ cc ((==_iff c sep).0 e, join-split sep s))
  | inr e ↦ rw e (join-push sep c (split sep s) ∙ ap (λ t. c ∷ t) (join-split sep s))
]

-- what `pop` took apart
abbrev pub unpop : Option (List Text × Text) → List Text
unpop none = []
unpop (some (before, last)) = before ++ last ∷ []

unpop_step :
    (c : Text) (o : Option (List Text × Text)) (ds : List Text)
    → is_empty ds ≡ false
    → unpop o ≡ ds
    → unpop (o >>= λ r. some (c ∷ r.0, r.1)) ≡ c ∷ ds
unpop_step c none [] h e = cc
unpop_step c none (d ∷ ds) h e = cc
unpop_step c (some (before, last)) ds h e = ap (λ t. c ∷ t) e

unpop-pop : (cs : List Text) → unpop (pop cs) ≡ cs
unfolding pop
unpop-pop [] = refl
unpop-pop (c ∷ []) = refl
unpop-pop (c ∷ d ∷ cs) = unpop_step c (pop (d ∷ cs)) (d ∷ cs) refl (unpop-pop (d ∷ cs))

pub pop-append :
    (cs before : List Text) (last : Text) → pop cs ≡ some (before, last) → cs ≡ before ++ last ∷ []
pop-append cs before last h = sym (unpop-pop cs) ∙ ap unpop h

pub join-append :
    (sep : ℕ) (ps : List Text) (q : Text)
    → is_empty ps ≡ false
    → join sep (ps ++ q ∷ []) ≡ join sep ps ++ sep ∷ q
unfolding join
join-append sep [] q h = cc
join-append sep (p ∷ []) q h = refl
join-append sep (p ∷ r ∷ ps) q h =
    ap (λ t. p ++ sep ∷ t) (join-append sep (r ∷ ps) q refl)
    ∙ sym (append_assoc p (sep ∷ join sep (r ∷ ps)) (sep ∷ q))

abbrev glue : Option (Text × Text) → Text
glue none = []
glue (some (s, t)) = s ++ b'/' ∷ t

-- A text is what stands before its last slash, the slash, and what stands behind it.
pub rsplit_slash-append :
    (s category pkgver : Text)
    → rsplit_slash s ≡ some (category, pkgver)
    → s ≡ category ++ b'/' ∷ pkgver
unfolding rsplit_slash
rsplit_slash-append s category pkgver h = elim (Option-cases (pop (split b'/' s))) [
  | inl e ↦ (let h' = rw e at h in cc h')
  | inr ((before, last), e) ↦ elim (Bool-cases (is_empty before)) [
    | inl k ↦ (let h' = rw (e, k) at h in cc h')
    | inr k ↦
        (let h' = rw (e, k) at h in
          sym (join-split b'/' s)
          ∙ ap (join b'/') (pop-append (split b'/' s) before last e)
          ∙ join-append b'/' before last k
          ∙ ap glue h')
  ]
]

text_of : Option Revision → Text
text_of none = []
text_of (some r) = r.text

make_revision-text : (s : Text) {rev : Revision} → make_revision s ≡ some rev → rev.text ≡ s
unfolding make_revision text_of
make_revision-text [] h = sym (ap text_of h)
make_revision-text (c ∷ s) {rev} h = elim (Option-cases (int (c ∷ s))) [
  | inl e ↦ (let h' = rw e at h in cc h')
  | inr (n, e) ↦ (let h' = rw e at h in sym (ap text_of h'))
]

valid_rev_text : (s : Text) → isvalid_rev s ≡ true → s ≡ b'r' ∷ tail s
unfolding isvalid_rev
valid_rev_text [] h = cc
valid_rev_text (c ∷ s) h = ap (λ d. d ∷ s) ((==_iff c b'r').0 (and_left _ _ h))

valid_rev_digits : (s : Text) → isvalid_rev s ≡ true → is_empty (tail s) ≡ false
unfolding isvalid_rev
valid_rev_digits [] h = cc
valid_rev_digits (c ∷ []) h = ground arith
valid_rev_digits (c ∷ d ∷ s) h = refl

make_fullver-text :
    (version : Text) (rev : Revision) (s : Text)
    → rev.text ≡ s
    → is_empty s ≡ false
    → make_fullver version rev ≡ version ++ b'-' ∷ b'r' ∷ s
make_fullver-text version rev [] h k = cc
make_fullver-text version rev (c ∷ s) h k = rw h

behind :
    (s version t : Text)
    → (elim t [ [] ↦ s ++ b'-' ∷ version | (c ∷ u) ↦ (s ++ b'-' ∷ version) ++ b'-' ∷ b'r' ∷ c ∷ u ])
      ≡ s ++ b'-' ∷ (elim t [ [] ↦ version | (c ∷ u) ↦ version ++ b'-' ∷ b'r' ∷ c ∷ u ])
behind s version [] = refl
behind s version (c ∷ u) = append_assoc s (b'-' ∷ version) (b'-' ∷ b'r' ∷ c ∷ u)

pub make_fullver-append :
    (s version : Text) (rev : Revision)
    → make_fullver (s ++ b'-' ∷ version) rev ≡ s ++ b'-' ∷ make_fullver version rev
make_fullver-append s version rev = behind s version rev.text

long_nonempty : (cs : List Text) → leb 2 (length cs) ≡ true → is_empty cs ≡ false
long_nonempty [] h = cc
long_nonempty (c ∷ cs) h = refl

-- The chunks without the revision, with the revision behind them, are all the chunks.
abbrev pub Taken : Type 0
Taken = List Text × Revision × Text

abbrev pub taken_text : Option Taken → Text
taken_text none = []
taken_text (some (chunks, rev, stored)) = make_fullver (join b'-' chunks) rev

some_no_revision :
    (cpvstr : Text) (cs : List Text)
    → taken_text (make_revision [] >>= λ rev. some (cs, rev, cpvstr)) ≡ join b'-' cs
unfolding make_revision
some_no_revision cpvstr cs = refl

with_revision :
    (before : List Text) (last : Text) (f : Revision → Text) (t : Taken)
    → isvalid_rev last ≡ true
    → is_empty before ≡ false
    → (make_revision (tail last) >>= λ rev. some (before, rev, f rev)) ≡ some t
    → join b'-' (before ++ last ∷ []) ≡ taken_text (some t)
with_revision before last f t v k h = elim (Option-cases (make_revision (tail last))) [
  | inl e ↦ (let h' = rw e at h in cc h')
  | inr (rev, e) ↦
      (let h' = rw e at h in
        join-append b'-' before last k
        ∙ ap (λ l. join b'-' before ++ b'-' ∷ l) (valid_rev_text last v)
        ∙ sym (
            make_fullver-text (join b'-' before) rev (tail last) (make_revision-text (tail last) e)
              (valid_rev_digits last v))
        ∙ ap taken_text h')
]

pub take_revision-join :
    (cpvstr category : Text) (cs before : List Text) (last : Text) (t : Taken)
    → pop cs ≡ some (before, last)
    → take_revision cpvstr category cs (some (before, last)) ≡ some t
    → join b'-' cs ≡ taken_text (some t)
unfolding take_revision
take_revision-join cpvstr category cs before last t e h = elim (Bool-cases (isvalid_rev last)) [
  | inl v ↦ elim (Bool-cases (leb 2 (length before))) [
    | inl l ↦
        (let h' = rw (v, l) at h in
          ap (join b'-') (pop-append cs before last e)
          ∙ with_revision before last (reset_cpvstr cpvstr category before) t v
              (long_nonempty before l) h')
    | inr l ↦ (let h' = rw (v, l) at h in cc h')
  ]
  | inr v ↦ (let h' = rw v at h in sym (some_no_revision cpvstr cs) ∙ ap taken_text h')
]
