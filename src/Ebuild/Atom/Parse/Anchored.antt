-- ===== src/Ebuild/Atom/Parse/Anchored.antt =====
-- Slots and repositories that `__str__` wrote, read back.
use pkgcore.Prelude.{
  ℕ, Bool, true, false, not, ◌||◌, ◌≡◌, refl, [], ◌∷◌, ◌++◌, Option, none, some, ◌==◌, all-append,
  append_assoc, append-nil, arith, Bool-cases, inl, inr, and_left, and_right,
}
use pkgcore.Prelude.Text.{Text, codes, text_eq}
use pkgcore.Prelude.Text.Laws.{lacks, text_eq_sound}
use pkgcore.Ebuild.Atom.Syntax.{ok, Eapi}
use pkgcore.Ebuild.Atom.SlotDeps.{
  is_repo_char, repo_ok, chunk_ok, Slot, parse_slot, cut_repo, no_slot, parse_anchor,
}
use pkgcore.Ebuild.Atom.Print.{str_subslot, str_equals, str_operator, str_slot, str_repo}
use pkgcore.Ebuild.Atom.Parse.Pieces.{
  cut_slot-append, cut_slot-lacks, cut_repo-colon, cut_repo-lacks,
}
use pkgcore.Ebuild.Atom.Parse.SlotText.{
  all_implied, subslot_ok, equals_ok, are_slots, body-lacks, slot_of, parse_slot-str,
}

abbrev pub are_repos : Option Text → Bool
are_repos none = true
are_repos (some r) = repo_ok r

-- The text of a slot, and what the parser makes of it.
record SlotText (eapi : Eapi) (text : Text) (slot : Slot) : Type 0 where
  first : ℕ
  rest : Text
  colon : text ≡ b':' ∷ first ∷ rest
  alone : lacks b':' (first ∷ rest) ≡ true
  unbracketed : lacks b'[' (first ∷ rest) ≡ true
  parsed : parse_slot eapi (first ∷ rest) ≡ ok slot

str_repo-ok : (r : Text) → repo_ok r ≡ true → str_repo (some r) ≡ b':' ∷ b':' ∷ r
unfolding repo_ok
str_repo-ok [] h = cc
str_repo-ok (c ∷ s) h = refl

cut_repo-colon_lacks :
    (c : ℕ) (s : Text) → lacks b':' (c ∷ s) ≡ true → cut_repo (b':' ∷ c ∷ s) ≡ none
unfolding cut_repo
cut_repo-colon_lacks c s h = rw (cut_repo-lacks (c ∷ s) h) (ground arith)

module _ (eapi : Eapi) (has_use : Bool) (left : Text) (plain : lacks b':' left ≡ true) where
  anchor-nothing : parse_anchor eapi has_use left ≡ ok (left, none, no_slot)
  unfolding parse_anchor
  anchor-nothing = rw (cut_slot-lacks has_use left plain, parse_anchor) refl

  anchor-repo :
      (r : Text)
      → repo_ok r ≡ true
      → parse_anchor eapi has_use (left ++ str_repo (some r)) ≡ ok (left, some r, no_slot)
  unfolding parse_anchor
  anchor-repo r h =
      rw (str_repo-ok r h) (
        rw (cut_slot-append has_use left (b':' ∷ r) plain (ground arith), parse_anchor) (rw h refl))

  module _ {text : Text} {slot : Slot} (t : SlotText eapi text slot) where
    anchor-slot : parse_anchor eapi has_use (left ++ text) ≡ ok (left, none, slot)
    unfolding parse_anchor
    anchor-slot = rw t.colon (
        rw (cut_slot-append has_use left (t.first ∷ t.rest) plain (ground arith), parse_anchor)
          (rw (cut_repo-colon_lacks t.first t.rest t.alone) (rw t.parsed refl)))

    anchor-both :
        (r : Text)
        → repo_ok r ≡ true
        → parse_anchor eapi has_use (left ++ text ++ str_repo (some r)) ≡ ok (left, some r, slot)
    unfolding parse_anchor
    anchor-both r h = rw t.colon (
        rw (str_repo-ok r h) (
          rw (append_assoc left (b':' ∷ t.first ∷ t.rest) (b':' ∷ b':' ∷ r)) (
            rw
              (
                cut_slot-append has_use left (t.first ∷ t.rest ++ b':' ∷ b':' ∷ r) plain
                    (ground arith),
                parse_anchor,
              )
              (rw (cut_repo-colon t.first t.rest r t.alone) (rw h (rw t.parsed refl))))))

pub joined-lacks :
    (d : ℕ) (s t : Text) → lacks d s ≡ true → lacks d t ≡ true → lacks d (s ++ t) ≡ true
joined-lacks d s t h k = ground (arith, all-append (λ c. not (c == d)) s t)

equals-lacks :
    (d : ℕ) (eapi : Eapi) (operator : Option Text)
    → (b'=' == d) ≡ false
    → equals_ok eapi operator ≡ true
    → lacks d (str_equals operator) ≡ true
equals-lacks d eapi none n h = refl
equals-lacks d eapi (some o) n h =
    rw (text_eq_sound o (codes "=") (and_right eapi.sub_slotting _ h)) (rw n refl)

SlotText-slot :
    (eapi : Eapi) (s : Text) (subslot operator : Option Text)
    → are_slots eapi (some s) subslot operator ≡ true
    → SlotText eapi (str_slot (some s) subslot operator) (slot_of operator s subslot)
unfolding are_slots str_slot chunk_ok
SlotText-slot eapi [] subslot operator h = cc
SlotText-slot eapi (c ∷ s) subslot operator h =
    let chunk = and_left (chunk_ok (c ∷ s)) _ h in
    let more = and_right (chunk_ok (c ∷ s)) _ h in
    let both = and_right eapi.has_slot_deps _ more in
    let sub = and_left (subslot_ok eapi subslot) _ both in
    let equals = and_right (subslot_ok eapi subslot) _ both in
    record {
      first = c;
      rest = s ++ str_subslot subslot ++ str_equals operator;
      colon = refl;
      alone =
          joined-lacks b':' (c ∷ s ++ str_subslot subslot) (str_equals operator)
            (body-lacks eapi (c ∷ s) chunk b':' subslot refl refl sub)
            (equals-lacks b':' eapi operator refl equals);
      unbracketed =
          joined-lacks b'[' (c ∷ s ++ str_subslot subslot) (str_equals operator)
            (body-lacks eapi (c ∷ s) chunk b'[' subslot refl refl sub)
            (equals-lacks b'[' eapi operator refl equals);
      parsed =
          parse_slot-str eapi c s chunk subslot operator (and_left eapi.has_slot_deps _ more) sub
            equals;
    }

-- An operator alone.
abbrev alone_of : Text → Slot
alone_of o = record { operator = some o; slot = none; subslot = none }

SlotText-mark :
    (eapi : Eapi) (c : ℕ)
    → eapi.sub_slotting ≡ true
    → (c == b'*' || c == b'=') ≡ true
    → SlotText eapi (b':' ∷ c ∷ []) (alone_of (c ∷ []))
unfolding parse_slot
SlotText-mark eapi c sub h = record {
  first = c;
  rest = [];
  colon = refl;
  alone = ground arith;
  unbracketed = ground arith;
  parsed = rw sub (rw h refl);
}

SlotText-operator :
    (eapi : Eapi) (o : Text)
    → are_slots eapi none none (some o) ≡ true
    → SlotText eapi (str_slot none none (some o)) (alone_of o)
unfolding are_slots str_slot
SlotText-operator eapi o h =
    let sub = and_left eapi.sub_slotting _ h in
    let mark = and_right eapi.sub_slotting _ h in
    elim (Bool-cases (text_eq o (codes "*"))) [
      | inl e ↦ rw (text_eq_sound o (codes "*") e) (SlotText-mark eapi b'*' sub refl)
      | inr e ↦ rw (text_eq_sound o (codes "=") (ground arith)) (SlotText-mark eapi b'=' sub refl)
    ]

-- Behind a text without a colon, the slot and the repository are read back.
pub parse_anchor-str :
    (eapi : Eapi) (has_use : Bool) (left : Text) (slot subslot operator repo_id : Option Text)
    → lacks b':' left ≡ true
    → are_slots eapi slot subslot operator ≡ true
    → are_repos repo_id ≡ true
    → parse_anchor eapi has_use (left ++ str_slot slot subslot operator ++ str_repo repo_id)
      ≡ ok (left, repo_id, record { operator = operator; slot = slot; subslot = subslot })
unfolding are_slots str_slot
parse_anchor-str eapi has_use left none none none none p h k =
    rw (append-nil (left ++ [])) (rw (append-nil left) (anchor-nothing eapi has_use left p))
parse_anchor-str eapi has_use left none none none (some r) p h k =
    rw (append-nil left) (anchor-repo eapi has_use left p r k)
parse_anchor-str eapi has_use left none none (some o) none p h k =
    rw (append-nil (left ++ str_operator (some o)))
      (anchor-slot eapi has_use left p (SlotText-operator eapi o h))
parse_anchor-str eapi has_use left none none (some o) (some r) p h k =
    anchor-both eapi has_use left p (SlotText-operator eapi o h) r k
parse_anchor-str eapi has_use left none (some t) operator repo_id p h k = cc
parse_anchor-str eapi has_use left (some s) subslot operator none p h k =
    rw (append-nil (left ++ str_slot (some s) subslot operator))
      (anchor-slot eapi has_use left p (SlotText-slot eapi s subslot operator h))
parse_anchor-str eapi has_use left (some s) subslot operator (some r) p h k =
    anchor-both eapi has_use left p (SlotText-slot eapi s subslot operator h) r k

SlotText-lacks :
    {eapi : Eapi} {text : Text} {slot : Slot} (t : SlotText eapi text slot) → lacks b'[' text ≡ true
SlotText-lacks t = rw t.colon t.unbracketed

pub str_slot-lacks :
    (eapi : Eapi) (slot subslot operator : Option Text)
    → are_slots eapi slot subslot operator ≡ true
    → lacks b'[' (str_slot slot subslot operator) ≡ true
unfolding are_slots str_slot
str_slot-lacks eapi none none none h = refl
str_slot-lacks eapi none none (some o) h = SlotText-lacks (SlotText-operator eapi o h)
str_slot-lacks eapi none (some t) operator h = cc
str_slot-lacks eapi (some s) subslot operator h =
    SlotText-lacks (SlotText-slot eapi s subslot operator h)

pub str_repo-lacks :
    (repo_id : Option Text) → are_repos repo_id ≡ true → lacks b'[' (str_repo repo_id) ≡ true
unfolding repo_ok
str_repo-lacks none h = refl
str_repo-lacks (some []) h = cc
str_repo-lacks (some (c ∷ s)) h =
    all_implied is_repo_char (λ d. not (d == b'[')) (c ∷ s)
      (λ d k. elim (Bool-cases (d == b'[')) [ inl e ↦ ground arith | inr e ↦ ground arith ])
      (and_right (not (c == b'-')) _ h)
