-- ===== src/Ebuild/Atom/Parse/SlotText.antt =====
-- Slots that `__str__` wrote, read back.
use pkgcore.Prelude.{
  ℕ, Bool, true, false, not, ◌&&◌, ◌||◌, ◌≡◌, refl, ap, sym, ◌∙◌, List, [], ◌∷◌, ◌++◌, Option, none,
  some, ◌==◌, all, all-append, append-nil, arith, Bool-cases, inl, inr, and_left, and_right,
}
use pkgcore.Prelude.Text.{Text, codes, text_eq}
use pkgcore.Prelude.Text.Laws.{lacks, text_eq_sound}
use pkgcore.Ebuild.Conditionals.Printed.{drop_last-append}
use pkgcore.Ebuild.TransitiveUse.{last_char}
use pkgcore.Ebuild.TransitiveUse.Parts.{last_char-append}
use pkgcore.Ebuild.Atom.Syntax.{ok, Eapi, cut}
use pkgcore.Ebuild.Atom.SlotDeps.{is_slot_char, chunk_ok, Slot, make_slot, parse_slot}
use pkgcore.Ebuild.Atom.Print.{str_subslot, str_equals}
use pkgcore.Ebuild.Atom.Parse.Pieces.{cut-append, cut-lacks, last_char-all}

pub all_implied :
    {A : Type 0} (p q : A → Bool) (xs : List A)
    → ((x : A) → p x ≡ true → q x ≡ true)
    → all p xs ≡ true
    → all q xs ≡ true
all_implied p q [] imp h = refl
all_implied p q (x ∷ xs) imp h =
    ground (arith, imp x (and_left (p x) _ h), all_implied p q xs imp (and_right (p x) _ h))

-- A slot and, behind a slash, what may stand there.
abbrev pub subslot_ok : Eapi → Option Text → Bool
subslot_ok eapi none = true
subslot_ok eapi (some t) = eapi.sub_slotting && chunk_ok t

abbrev pub equals_ok : Eapi → Option Text → Bool
equals_ok eapi none = true
equals_ok eapi (some o) = eapi.sub_slotting && text_eq o (codes "=")

abbrev is_operator : Text → Bool
is_operator o = text_eq o (codes "*") || text_eq o (codes "=")

-- A slot as the parser leaves it: with a subslot or an equals sign, or an operator alone.
unfoldable pub are_slots : Eapi → Option Text → Option Text → Option Text → Bool
are_slots eapi none none none = true
are_slots eapi none none (some o) = eapi.sub_slotting && is_operator o
are_slots eapi none (some t) operator = false
are_slots eapi (some s) subslot operator =
    chunk_ok s && (eapi.has_slot_deps && (subslot_ok eapi subslot && equals_ok eapi operator))

chunk_chars :
    (q : ℕ → Bool) (s : Text)
    → ((c : ℕ) → is_slot_char c ≡ true → q c ≡ true)
    → chunk_ok s ≡ true
    → all q s ≡ true
unfolding chunk_ok
chunk_chars q [] imp h = cc
chunk_chars q (c ∷ s) imp h = all_implied is_slot_char q (c ∷ s) imp (and_right _ _ h)

slot_char_lacks :
    (d : ℕ) → is_slot_char d ≡ false → (c : ℕ) → is_slot_char c ≡ true → not (c == d) ≡ true
slot_char_lacks d n c h = elim (Bool-cases (c == d)) [ inl e ↦ ground arith | inr e ↦ ground arith ]

chunk-lacks : (d : ℕ) (s : Text) → is_slot_char d ≡ false → chunk_ok s ≡ true → lacks d s ≡ true
chunk-lacks d s n h = chunk_chars (λ c. not (c == d)) s (slot_char_lacks d n) h

-- The text of a slot, before its equals sign.
module _ (eapi : Eapi) (subslots : eapi.sub_slotting ≡ true) (c : ℕ) (s : Text) where
  parse_slot-plain :
      lacks b'=' (c ∷ s) ≡ true
      → (c == b'*') ≡ false
      → parse_slot eapi (c ∷ s) ≡ make_slot none (cut b'/' (c ∷ s)) (c ∷ s)
  unfolding parse_slot
  parse_slot-plain h k =
      let m = last_char-all (λ d. not (d == b'=')) c s h in
      let n : (c == b'=') ≡ false = ground arith in
      let l : (last_char (c ∷ s) == b'=') ≡ false = ground arith in
      rw subslots (rw k (rw n (rw l refl)))

  parse_slot-equals :
      lacks b'=' (c ∷ s) ≡ true
      → (c == b'*') ≡ false
      → parse_slot eapi (c ∷ s ++ b'=' ∷ [])
        ≡ make_slot (some (codes "=")) (cut b'/' (c ∷ s)) (c ∷ s)
  unfolding parse_slot
  parse_slot-equals h k =
      let n : (c == b'=') ≡ false = ground arith in
      rw subslots
        (rw k (rw n (rw (last_char-append (c ∷ s) b'=') (rw (drop_last-append (c ∷ s) b'=') refl))))

abbrev pub slot_of : Option Text → Text → Option Text → Slot
slot_of operator s subslot = record { operator = operator; slot = some s; subslot = subslot }

chunk_some :
    (q : Text → Type 0) (t : Text)
    → chunk_ok t ≡ true
    → ((c : ℕ) (s : Text) → t ≡ c ∷ s → q (c ∷ s))
    → q t
unfolding chunk_ok
chunk_some q [] h k = cc
chunk_some q (c ∷ s) h k = k c s refl

module _ (eapi : Eapi) (s : Text) (chunk : chunk_ok s ≡ true) where
  str_subslot-chunk : (t : Text) → chunk_ok t ≡ true → str_subslot (some t) ≡ b'/' ∷ t
  unfolding chunk_ok
  str_subslot-chunk [] h = cc
  str_subslot-chunk (c ∷ t) h = refl

  pub body-lacks :
      (d : ℕ) (subslot : Option Text)
      → is_slot_char d ≡ false
      → (b'/' == d) ≡ false
      → subslot_ok eapi subslot ≡ true
      → lacks d (s ++ str_subslot subslot) ≡ true
  body-lacks d none n e h = rw (append-nil s) (chunk-lacks d s n chunk)
  body-lacks d (some t) n e h =
      let k = and_right eapi.sub_slotting _ h in
      rw (str_subslot-chunk t k) (
        rw (all-append (λ c. not (c == d)) s (b'/' ∷ t))
          (ground (arith, chunk-lacks d s n chunk, chunk-lacks d t n k, e)))

  make_slot-body :
      (operator subslot : Option Text)
      → subslot_ok eapi subslot ≡ true
      → make_slot operator (cut b'/' (s ++ str_subslot subslot)) (s ++ str_subslot subslot)
        ≡ ok (slot_of operator s subslot)
  make_slot-body operator none h =
      rw (append-nil s) (rw (cut-lacks b'/' s (chunk-lacks b'/' s refl chunk)) (rw chunk refl))
  make_slot-body operator (some t) h =
      let k = and_right eapi.sub_slotting _ h in
      rw (str_subslot-chunk t k)
        (rw (cut-append b'/' s t (chunk-lacks b'/' s refl chunk)) (rw chunk (rw k refl)))

not_star : (c : ℕ) (s : Text) → chunk_ok (c ∷ s) ≡ true → (c == b'*') ≡ false
unfolding chunk_ok
not_star c s h = elim (Bool-cases (c == b'*')) [ inl e ↦ ground arith | inr e ↦ e ]

module _ (eapi : Eapi) (c : ℕ) (s : Text) (chunk : chunk_ok (c ∷ s) ≡ true) where
  -- Without subslots, a slot stands alone.
  parse_slot-alone :
      eapi.has_slot_deps ≡ true
      → eapi.sub_slotting ≡ false
      → parse_slot eapi (c ∷ s) ≡ ok (slot_of none (c ∷ s) none)
  unfolding parse_slot
  parse_slot-alone h k = rw k (rw h (ground (arith, chunk)))

  parse_slot-body :
      (subslot : Option Text)
      → eapi.sub_slotting ≡ true
      → subslot_ok eapi subslot ≡ true
      → parse_slot eapi (c ∷ s ++ str_subslot subslot) ≡ ok (slot_of none (c ∷ s) subslot)
  parse_slot-body subslot sub h =
      parse_slot-plain eapi sub c (s ++ str_subslot subslot)
        (body-lacks eapi (c ∷ s) chunk b'=' subslot refl refl h) (not_star c s chunk)
      ∙ make_slot-body eapi (c ∷ s) chunk none subslot h

  parse_slot-operator :
      (subslot : Option Text)
      → eapi.sub_slotting ≡ true
      → subslot_ok eapi subslot ≡ true
      → parse_slot eapi (c ∷ s ++ str_subslot subslot ++ b'=' ∷ [])
        ≡ ok (slot_of (some (codes "=")) (c ∷ s) subslot)
  parse_slot-operator subslot sub h =
      parse_slot-equals eapi sub c (s ++ str_subslot subslot)
        (body-lacks eapi (c ∷ s) chunk b'=' subslot refl refl h) (not_star c s chunk)
      ∙ make_slot-body eapi (c ∷ s) chunk (some (codes "=")) subslot h

  parse_slot-none :
      eapi.has_slot_deps ≡ true → parse_slot eapi (c ∷ s) ≡ ok (slot_of none (c ∷ s) none)
  parse_slot-none h = elim (Bool-cases eapi.sub_slotting) [
    | inl e ↦ ap (λ u. parse_slot eapi (c ∷ u)) (sym (append-nil s)) ∙ parse_slot-body none e refl
    | inr e ↦ parse_slot-alone h e
  ]

  pub parse_slot-str :
      (subslot operator : Option Text)
      → eapi.has_slot_deps ≡ true
      → subslot_ok eapi subslot ≡ true
      → equals_ok eapi operator ≡ true
      → parse_slot eapi (c ∷ s ++ str_subslot subslot ++ str_equals operator)
        ≡ ok (slot_of operator (c ∷ s) subslot)
  parse_slot-str none none h k e = rw (append-nil (s ++ [])) (rw (append-nil s) (parse_slot-none h))
  parse_slot-str (some t) none h k e =
      ap (λ u. parse_slot eapi (c ∷ u)) (append-nil (s ++ str_subslot (some t)))
      ∙ parse_slot-body (some t) (and_left eapi.sub_slotting _ k) k
  parse_slot-str subslot (some o) h k e =
      let same = text_eq_sound o (codes "=") (and_right eapi.sub_slotting _ e) in
      rw same (parse_slot-operator subslot (and_left eapi.sub_slotting _ e) k)
