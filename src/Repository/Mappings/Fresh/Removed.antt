-- ===== src/Repository/Mappings/Fresh/Removed.antt =====
-- `notify_remove_package` of src/pkgcore/repository/util.py and prototype.py, for a package whose
-- versions, and whose category's packages, have been read.
use pkgcore.Prelude.{
  not, ◌&&◌, ◌≡◌, refl, sym, ap, ◌∙◌, List, [], Option, none, some, arith, if◌then◌else◌,
  Bool-cases, inl, inr,
}
use mathlib.Core.Path.{subst}
use pkgcore.Prelude.Text.{Text, text_eq}
use pkgcore.Restrictions.Solutions.Defined.{is_some}
use pkgcore.Repository.{contains}
use pkgcore.Repository.Mappings.{
  State, pair_eq, or_empty, stored, versions_getitem, versions_read, without_version, notify_remove,
  put_versions, simple_remove,
}
use pkgcore.Dicts.{lookup}
use pkgcore.Repository.Mappings.Stored.{
  category_of, versions_of, pair_eq_sound, kept, store_remove_lem, stored-remove, some_unless_empty,
}
use pkgcore.Repository.Mappings.View.{VersionsView, held, taken, absent, versions-View}
use pkgcore.Repository.Mappings.Fresh.Added.{pair_eq_refl}
use pkgcore.Repository.Mappings.Fresh.{Fresh, Coherent, versions_read_lem, store_kept}
use pkgcore.Repository.Mappings.Fresh.Shrunk.{
  contains-kept, or_empty-unless, shrunk, removed, simple_remove-removed, removed-Coherent,
  removed-store,
}

-- Where the caches of a SimpleTree agree with its store and hold the versions of a stored package
-- and the packages of its category, removing a version of it gives no KeyError; the caches agree
-- with the store afterwards, and a read of the versions of any key finds what it found before, but
-- for the removed version at its key.
pub simple_remove_lem :
    (s : State)
    → Coherent s
    → (c p v : Text) (vs ps ws : List Text) → lookup pair_eq (c, p) s.vers ≡ some vs
    → lookup text_eq c s.pkgs ≡ some ps
    → stored s.store c p ≡ some ws
    → (s2 : State) × (simple_remove s (c, p) v ≡ some s2)
      × Coherent s2
      × ((d q u : Text)
          → contains (versions_read s2 (d, q)).0 u
            ≡ (contains (versions_read s (d, q)).0 u && not (pair_eq (d, q) (c, p) && text_eq u v)))
simple_remove_lem s fresh c p v vs ps ws h k m =
    (s2, simple_remove-removed s fresh c p v vs ps ws h k m, coherent, reads)
  where
    s2 : State
    s2 = removed s fresh c p v vs ps ws h k m

    at_store : s2.store ≡ shrunk s fresh c p v vs ps ws h k m
    at_store = removed-store s fresh c p v vs ps ws h k m

    coherent : Coherent s2
    coherent =
        subst (λ x. Fresh x s2) (sym at_store) (removed-Coherent s fresh c p v vs ps ws h k m)

    reads :
        (d q u : Text)
        → contains (versions_read s2 (d, q)).0 u
          ≡ (contains (versions_read s (d, q)).0 u && not (pair_eq (d, q) (c, p) && text_eq u v))
    reads d q u =
        versions_read_lem s2 coherent d q u
        ∙ ap (λ x. contains (versions_of x d q) u) at_store
        ∙ ap (λ o. contains (or_empty o) u) (stored-remove s.store c p d q (kept v ws))
        ∙ elim (Bool-cases (pair_eq (d, q) (c, p))) [
          | inr e ↦ rw e (sym (versions_read_lem s fresh d q u) ∙ ground arith)
          | inl e ↦ rw e (
              ap (λ z. contains z u) (or_empty-unless (kept v ws))
              ∙ contains-kept v ws u
              ∙ ap (λ b. b && not (text_eq u v))
                  (ap (λ o. contains (or_empty o) u) (sym m)
                    ∙ ap (λ x. contains (versions_of s.store (x.0) (x.1)) u)
                        (sym (pair_eq_sound (d, q) (c, p) e))
                    ∙ sym (versions_read_lem s fresh d q u)))
        ]

unread_view :
    (s : State) (c p v : Text) (r : Option (List Text) × State)
    → VersionsView s c p r
    → lookup pair_eq (c, p) s.vers ≡ none
    → stored s.store c p ≡ none
    → without_version c p v r ≡ none
unread_view s c p v r (held vs h) k m = ground (arith, ap is_some (sym h ∙ k))
unread_view s c p v r (taken ps s1 vs h w n) k m =
    ground (arith, ap is_some (sym n ∙ ap (λ x. stored x c p) (store_kept s c (ps, s1) w) ∙ m))
unread_view s c p v r (absent ps s1 h w n) k m = refl

-- Removing the last version of a package whose versions have not been read is a KeyError.
pub simple_remove-unread :
    (s : State) (c p v : Text) (ws : List Text)
    → lookup pair_eq (c, p) s.vers ≡ none
    → stored s.store c p ≡ some ws
    → kept v ws ≡ []
    → simple_remove s (c, p) v ≡ none
unfolding simple_remove notify_remove
simple_remove-unread s c p v ws h k m =
    let store = put_versions p (kept v ws) (category_of s.store c) s.store c in
    ap (λ o. elim o [ none ↦ none | some x ↦ notify_remove (record s { store = x }) (c, p) v ])
      (store_remove_lem s.store c p v ws k)
    ∙ unread_view (record s { store = store }) c p v
        (versions_getitem (record s { store = store }) (c, p))
        (versions-View (record s { store = store }) c p) h
        (stored-remove s.store c p c p (kept v ws)
          ∙ ap (λ b. if b then some_unless_empty (kept v ws) else stored s.store c p)
              (pair_eq_refl c p)
          ∙ ap some_unless_empty m)
