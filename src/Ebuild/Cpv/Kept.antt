-- ===== src/Ebuild/Cpv/Kept.antt =====
-- The parts that `CPV(...)` stores, put together again, are the text that it was given.
use pkgcore.Prelude.{
  true, false, ◌&&◌, ◌≡◌, refl, ap, sym, ◌∙◌, List, [], ◌∷◌, ◌++◌, Option, none, some, >>=-eq-some,
  Option-cases, if◌then◌else◌, is_empty, Bool-cases, inl, inr, append_assoc, and_right,
}
use pkgcore.Prelude.Text.{Text, split, join}
use pkgcore.Ebuild.Version.{Revision}
use pkgcore.Ebuild.Cpv.{
  Cpv, Args, cpvstr_of, versioned_of, rsplit_slash, take_revision, make_fullver, make_versioned,
  make_cpv,
}
use pkgcore.Ebuild.Names.{pop, isvalid_cat, isvalid_version, isvalid_pkg_name}
use pkgcore.Ebuild.Cpv.Parsed.{
  join-split, pop-append, join-append, rsplit_slash-append, make_fullver-append, Taken, taken_text,
  take_revision-join,
}

abbrev pub text_or_empty : Option Text → Text
text_or_empty none = []
text_or_empty (some s) = s

-- the key, and the full version where there is one
abbrev pub whole_text : Cpv → Text
whole_text c = c.key ++ b'-' ∷ text_or_empty c.fullver

abbrev whole_of : Option Cpv → Text
whole_of none = []
whole_of (some c) = whole_text c

valid_name_nonempty : (cs : List Text) → isvalid_pkg_name cs ≡ true → is_empty cs ≡ false
unfolding isvalid_pkg_name
valid_name_nonempty [] h = cc
valid_name_nonempty (c ∷ cs) h = refl

-- What `make_versioned` stores of the chunks, put together.
stored_text :
    (category version : Text) (name : List Text) (rev : Revision)
    → is_empty name ≡ false
    → category ++ b'/' ∷ make_fullver (join b'-' (name ++ version ∷ [])) rev
      ≡ (category ++ b'/' ∷ join b'-' name) ++ b'-' ∷ make_fullver version rev
stored_text category version name rev h =
    ap (λ t. category ++ b'/' ∷ make_fullver t rev) (join-append b'-' name version h)
    ∙ ap (λ t. category ++ b'/' ∷ t) (make_fullver-append (join b'-' name) version rev)
    ∙ sym (append_assoc category (b'/' ∷ join b'-' name) (b'-' ∷ make_fullver version rev))

taken_join :
    (cpvstr category : Text) (cs : List Text) (t : Taken)
    → take_revision cpvstr category cs (pop cs) ≡ some t
    → join b'-' cs ≡ taken_text (some t)
unfolding take_revision
taken_join cpvstr category cs t h = elim (Option-cases (pop cs)) [
  | inl e ↦ (let h' = rw e at h in cc h')
  | inr ((before, last), e) ↦
      (let h' = rw e at h in take_revision-join cpvstr category cs before last t e h')
]

abbrev stored_cpv : Text → Taken → List Text × Text → Cpv
stored_cpv category (chunks, rev, stored) (name, version) = record {
  category = category;
  cpvstr = stored;
  package_name = join b'-' name;
  key = category ++ b'/' ∷ join b'-' name;
  version = some version;
  fullver = some (make_fullver version rev);
  revision = some rev;
}

store_step :
    (category : Text) (t : Taken) (l : List Text × Text) {c : Cpv}
    → pop t.0 ≡ some l
    → (if isvalid_version l.1 && isvalid_pkg_name l.0 then some (stored_cpv category t l) else none)
      ≡ some c
    → category ++ b'/' ∷ taken_text (some t) ≡ whole_text c
store_step category (chunks, rev, stored) (name, version) e h =
    elim (Bool-cases (isvalid_version version && isvalid_pkg_name name)) [
      | inl v ↦
          (let h' = rw v at h in
            ap (λ cs. category ++ b'/' ∷ make_fullver (join b'-' cs) rev)
              (pop-append chunks name version e)
            ∙ stored_text category version name rev
                (valid_name_nonempty name (and_right (isvalid_version version) _ v))
            ∙ ap whole_of h')
      | inr v ↦ (let h' = rw v at h in cc h')
    ]

make_versioned-text :
    (cpvstr category : Text) (cs : List Text) {c : Cpv}
    → make_versioned cpvstr category cs ≡ some c
    → category ++ b'/' ∷ join b'-' cs ≡ whole_text c
unfolding make_versioned
make_versioned-text cpvstr category cs h =
    let (t, taken, h1) = >>=-eq-some (take_revision cpvstr category cs (pop cs)) _ h in
    let (l, popped, h2) = >>=-eq-some (pop t.0) _ h1 in
    ap (λ s. category ++ b'/' ∷ s) (taken_join cpvstr category cs t taken)
    ∙ store_step category t l popped h2

-- What `CPV(...)` is given with a version is the key of the package it makes, a dash and its full
-- version, whose revision is the one that was written.
pub make_cpv-text :
    (args : Args) (c : Cpv)
    → versioned_of args ≡ true
    → make_cpv args ≡ some c
    → cpvstr_of args ≡ whole_text c
unfolding make_cpv
make_cpv-text args c v h =
    let ((category, pkgver), split_at, h1) = >>=-eq-some (rsplit_slash (cpvstr_of args)) _ h in
    elim (Bool-cases (isvalid_cat category)) [
      | inl k ↦
          (let h2 = rw (k, v) at h1 in
            rsplit_slash-append (cpvstr_of args) category pkgver split_at
            ∙ ap (λ s. category ++ b'/' ∷ s) (sym (join-split b'-' pkgver))
            ∙ make_versioned-text (cpvstr_of args) category (split b'-' pkgver) h2)
      | inr k ↦ (let h2 = rw k at h1 in cc h2)
    ]
