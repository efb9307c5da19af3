-- ===== src/Ebuild/PkgUpdates/Relinked.antt =====
-- A move in src/pkgcore/ebuild/pkg_updates.py: both chains go on in a new deque.
use mathlib.Core.List.{flat_map}
use pkgcore.Prelude.{
  ==_iff, ==_refl, ℕ, suc, true, false, ◌≡◌, sym, ap, ◌∙◌, List, [], ◌∷◌, ◌++◌, some, arith, ◌==◌,
  length, all, all-append, if◌then◌else◌, Bool-cases, inl, inr, append-nil,
}
use pkgcore.Prelude.Text.{Text, text_eq}
use pkgcore.Prelude.Text.Laws.{text_eq_sym, text_eq_sound, text_eq_refl}
use pkgcore.Dicts.{lookup-put, distinct, distinct-put}
use pkgcore.Ebuild.PkgUpdates.{
  Spec, Command, move, Item, command, deque, State, node, extend, start_of, tail_of, tail, start,
  relink,
}
use pkgcore.Ebuild.PkgUpdates.Nodes.{
  node-extend, length-extend, node_new, length_new, node_beyond, opened, opened-append, newer,
}
use pkgcore.Ebuild.PkgUpdates.Solved.{mods_at, Good, Solves}

pub distinct_tail :
    (s : State)
    → Good s
    → (k j : Text) (a b i l : ℕ) → text_eq k j ≡ false
    → mods_at s k ≡ some (a, i)
    → mods_at s j ≡ some (b, l)
    → (i == l) ≡ false
distinct_tail s g k j a b i l n h m = elim (Bool-cases (i == l)) [
  | inr e ↦ e
  | inl e ↦
      let same : l ≡ i = sym ((==_iff i l).0 e) in
      ground (arith, g.apart k j a b i h (m ∙ ap (λ x. some (b, x)) same), n)
]

pub same_tail :
    (s : State) (k j : Text) (a b i l : ℕ)
    → text_eq k j ≡ true
    → mods_at s k ≡ some (a, i)
    → mods_at s j ≡ some (b, l)
    → i ≡ l
same_tail s k j a b i l e h m = ap tail_of (sym h ∙ ap (mods_at s) (text_eq_sound k j e) ∙ m)

module _ (s : State) (src trg : Spec) (a ts b tt : ℕ) (hs : mods_at s src.key ≡ some (a, ts))
    (ht : mods_at s trg.key ≡ some (b, tt)) (g : Good s) where
  abbrev pub new : ℕ
  new = length s.nodes

  abbrev pub after : State
  after = relink s src trg

  nodes_after :
      after.nodes
      ≡ extend
          (extend (s.nodes ++ [] ∷ []) ts (command (move src trg) ∷ deque new ∷ []))
          tt
          (deque new ∷ [])
  unfolding relink
  nodes_after =
      ap
        (λ i.
          extend (extend (s.nodes ++ [] ∷ []) i (command (move src trg) ∷ deque new ∷ []))
            (tail s trg.key) (deque new ∷ []))
        (ap tail_of hs)
      ∙ ap
          (λ i.
            extend (extend (s.nodes ++ [] ∷ []) ts (command (move src trg) ∷ deque new ∷ [])) i
              (deque new ∷ []))
          (ap tail_of ht)

  length_after : length after.nodes ≡ suc new
  length_after =
      ap length nodes_after
      ∙ length-extend _ tt (deque new ∷ [])
      ∙ length-extend (s.nodes ++ [] ∷ []) ts (command (move src trg) ∷ deque new ∷ [])
      ∙ length_new s.nodes

  pub mods_after :
      (j : Text) → mods_at after j ≡ (if text_eq j trg.key then some (b, new) else mods_at s j)
  unfolding relink
  mods_after j =
      lookup-put text_eq text_eq_sound j trg.key (start s trg.key, new) s.mods
      ∙ ap (λ x. if text_eq j trg.key then some (x, new) else mods_at s j) (ap start_of ht)

  abbrev pub base : ℕ → List Item
  base i =
      if i == ts then node s.nodes ts ++ command (move src trg) ∷ deque new ∷ [] else node s.nodes i

  node-base :
      (i : ℕ)
      → node (extend (s.nodes ++ [] ∷ []) ts (command (move src trg) ∷ deque new ∷ [])) i ≡ base i
  node-base i =
      node-extend (s.nodes ++ [] ∷ []) ts (command (move src trg) ∷ deque new ∷ []) i
        (ground (arith, g.below src.key a ts hs, length_new s.nodes))
      ∙ ap
          (λ z.
            if i == ts
            then z ++ command (move src trg) ∷ deque new ∷ []
            else node (s.nodes ++ [] ∷ []) i)
          (node_new s.nodes ts)
      ∙ ap (λ z. if i == ts then node s.nodes ts ++ command (move src trg) ∷ deque new ∷ [] else z)
          (node_new s.nodes i)

  node_after :
      (i : ℕ) → node after.nodes i ≡ (if i == tt then base tt ++ deque new ∷ [] else base i)
  node_after i =
      ap (λ z. node z i) nodes_after
      ∙ node-extend (extend (s.nodes ++ [] ∷ []) ts (command (move src trg) ∷ deque new ∷ [])) tt
          (deque new ∷ []) i
          (ground (
            arith,
            g.below trg.key b tt ht,
            length_new s.nodes,
            length-extend (s.nodes ++ [] ∷ []) ts (command (move src trg) ∷ deque new ∷ []),
          ))
      ∙ ap
          (λ z.
            if i == tt
            then z ++ deque new ∷ []
            else node (extend (s.nodes ++ [] ∷ []) ts (command (move src trg) ∷ deque new ∷ [])) i)
          (node-base tt)
      ∙ ap (λ z. if i == tt then base tt ++ deque new ∷ [] else z) (node-base i)

  -- a deque that is no tail of the two is as it was
  node_other : (i : ℕ) → (i == ts) ≡ false → (i == tt) ≡ false → node after.nodes i ≡ node s.nodes i
  node_other i h k =
      node_after i
      ∙ ap (λ c. if c then base tt ++ deque new ∷ [] else base i) k
      ∙ ap
          (λ c.
            if c
            then node s.nodes ts ++ command (move src trg) ∷ deque new ∷ []
            else node s.nodes i)
          h

  below_new : (k : Text) (c i : ℕ) → mods_at s k ≡ some (c, i) → (i == new) ≡ false
  below_new k c i h = ground (arith, g.below k c i h)

  pub relink-Good : Good after
  unfolding relink
  relink-Good = record {
    below = λ k c i h. elim (Bool-cases (text_eq k trg.key)) [
      | inl e ↦
          let same =
            ap tail_of
              (sym h ∙ mods_after k ∙ ap (λ x. if x then some (b, new) else mods_at s k) e) in
          ground (arith, same, length_after)
      | inr e ↦ ground (
        arith,
        g.below k c i
            (sym (mods_after k ∙ ap (λ x. if x then some (b, new) else mods_at s k) e) ∙ h),
        length_after,
      )
    ];
    apart = λ k j c d i h m. elim (Bool-cases (text_eq k trg.key)) [
      | inl e ↦ elim (Bool-cases (text_eq j trg.key)) [
        | inl n ↦ ap (text_eq k) (text_eq_sound j trg.key n) ∙ e
        | inr n ↦
            let at_new =
              ap tail_of
                (sym h ∙ mods_after k ∙ ap (λ x. if x then some (b, new) else mods_at s k) e) in
            ground (
              arith,
              at_new,
              g.below j d i
                  (sym (mods_after j ∙ ap (λ x. if x then some (b, new) else mods_at s j) n) ∙ m),
            )
      ]
      | inr e ↦
          let old_k =
            sym (mods_after k ∙ ap (λ x. if x then some (b, new) else mods_at s k) e) ∙ h in
          elim (Bool-cases (text_eq j trg.key)) [
            | inl n ↦
                let at_new =
                  ap tail_of
                    (sym m ∙ mods_after j ∙ ap (λ x. if x then some (b, new) else mods_at s j) n) in
                ground (arith, at_new, g.below k c i old_k)
            | inr n ↦
                g.apart k j c d i old_k
                  (sym (mods_after j ∙ ap (λ x. if x then some (b, new) else mods_at s j) n) ∙ m)
          ]
    ];
    ordered = λ i. ap (all (newer i)) (node_after i) ∙ ordered_if i;
    once = once_after;
  }
    where
      once_after : distinct text_eq after.mods ≡ true
      once_after =
          distinct-put text_eq text_eq_sound text_eq_sym trg.key (start s trg.key, new) s.mods
            g.once

      ordered_base : (i : ℕ) → all (newer i) (base i) ≡ true
      ordered_base i = elim (Bool-cases (i == ts)) [
        | inr e ↦ rw e (g.ordered i)
        | inl e ↦ rw e (
            all-append (newer i) (node s.nodes ts) (command (move src trg) ∷ deque new ∷ [])
            ∙ ground (
              arith,
              (==_iff i ts).0 e,
              ap (λ x. all (newer x) (node s.nodes ts)) ((==_iff i ts).0 e) ∙ g.ordered ts,
              g.below src.key a ts hs,
            ))
      ]

      ordered_if :
          (i : ℕ) → all (newer i) (if i == tt then base tt ++ deque new ∷ [] else base i) ≡ true
      ordered_if i = elim (Bool-cases (i == tt)) [
        | inr e ↦ rw e (ordered_base i)
        | inl e ↦ rw e (
            all-append (newer i) (base tt) (deque new ∷ [])
            ∙ ground (
              arith,
              (==_iff i tt).0 e,
              ap (λ x. all (newer x) (base tt)) ((==_iff i tt).0 e) ∙ ordered_base tt,
              g.below trg.key b tt ht,
            ))
      ]

  module _ (v : ℕ → List Command) (f : Text → List Command) (o : Solves v after f)
      (gone : f src.key ≡ []) where
    -- what is to come before the move
    abbrev pub before : Text → List Command
    before k = if text_eq k src.key then move src trg ∷ f trg.key else f k

    old_key : (j : Text) → text_eq j trg.key ≡ false → mods_at after j ≡ mods_at s j
    old_key j e = mods_after j ∙ ap (λ x. if x then some (b, new) else mods_at s j) e

    opened_new : v new ≡ f trg.key
    unfolding flat_map
    opened_new =
        o.at_tail trg.key b new (
          mods_after trg.key
          ∙ ap (λ x. if x then some (b, new) else mods_at s trg.key) (text_eq_refl trg.key))
        ∙ ap (λ z. opened v z ++ f trg.key)
            (node_other new (ground (arith, g.below src.key a ts hs))
                (ground (arith, g.below trg.key b tt ht))
              ∙ node_beyond s.nodes new (ground arith))

    -- a deque that was the tail of such a key is the tail of no key any more
    no_tail :
        (i : ℕ)
        → (i == new) ≡ false
        → ((j : Text) (d l : ℕ)
            → text_eq j trg.key ≡ false
            → mods_at s j ≡ some (d, l)
            → (i == l) ≡ false)
        → (j : Text) (d l : ℕ) → mods_at after j ≡ some (d, l)
        → (i == l) ≡ false
    no_tail i n m j d l h = elim (Bool-cases (text_eq j trg.key)) [
      | inr e ↦ m j d l e (sym (old_key j e) ∙ h)
      | inl e ↦
          let at_new =
            ap tail_of
              (sym h ∙ mods_after j ∙ ap (λ x. if x then some (b, new) else mods_at s j) e) in
          ground (arith, at_new, n)
    ]

    node_source :
        (ts == tt) ≡ false
        → node after.nodes ts ≡ node s.nodes ts ++ command (move src trg) ∷ deque new ∷ []
    node_source n =
        node_after ts
        ∙ ap (λ c. if c then base tt ++ deque new ∷ [] else base ts) n
        ∙ ap
            (λ c.
              if c
              then node s.nodes ts ++ command (move src trg) ∷ deque new ∷ []
              else node s.nodes ts)
            (==_refl ts)

    opened_source :
        opened v (node s.nodes ts ++ command (move src trg) ∷ deque new ∷ [])
        ≡ opened v (node s.nodes ts) ++ move src trg ∷ f trg.key
    unfolding flat_map
    opened_source =
        opened-append v (node s.nodes ts) (command (move src trg) ∷ deque new ∷ [])
        ∙ ap (λ z. opened v (node s.nodes ts) ++ move src trg ∷ z) (append-nil (v new) ∙ opened_new)

    -- the source's tail, where the target is another key
    source_apart :
        text_eq src.key trg.key ≡ false
        → v ts ≡ opened v (node s.nodes ts) ++ move src trg ∷ f trg.key
    source_apart n =
        o.at_tail src.key a ts (old_key src.key n ∙ hs)
        ∙ ap (λ z. opened v z ++ f src.key)
            (node_source (distinct_tail s g src.key trg.key a b ts tt n hs ht))
        ∙ ap (λ z. opened v (node s.nodes ts ++ command (move src trg) ∷ deque new ∷ []) ++ z) gone
        ∙ append-nil (opened v (node s.nodes ts ++ command (move src trg) ∷ deque new ∷ []))
        ∙ opened_source

    -- and where it is the same
    source_same :
        text_eq src.key trg.key ≡ true
        → v ts ≡ opened v (node s.nodes ts) ++ move src trg ∷ f trg.key
    unfolding flat_map
    source_same e =
        o.elsewhere ts (ground (arith, g.below src.key a ts hs, length_after)) (
          no_tail ts (below_new src.key a ts hs)
            (λ j d l n h. distinct_tail s g src.key j a d ts l (apart_from j n) hs h))
        ∙ ap (opened v) (
            node_after ts
            ∙ ap (λ c. if c then base tt ++ deque new ∷ [] else base ts)
                (ap (λ x. ts == x) (sym tails) ∙ ==_refl ts)
            ∙ ap (λ x. base x ++ deque new ∷ []) (sym tails)
            ∙ ap
                (λ c.
                  (if c
                    then node s.nodes ts ++ command (move src trg) ∷ deque new ∷ []
                    else node s.nodes ts)
                  ++ deque new ∷ [])
                (==_refl ts))
        ∙ opened-append v (node s.nodes ts ++ command (move src trg) ∷ deque new ∷ [])
            (deque new ∷ [])
        ∙ ap (λ z. opened v (node s.nodes ts ++ command (move src trg) ∷ deque new ∷ []) ++ z)
            (append-nil (v new) ∙ opened_new ∙ sym (ap f (text_eq_sound src.key trg.key e)) ∙ gone)
        ∙ append-nil (opened v (node s.nodes ts ++ command (move src trg) ∷ deque new ∷ []))
        ∙ opened_source
      where
        tails : ts ≡ tt
        tails = same_tail s src.key trg.key a b ts tt e hs ht

        apart_from : (j : Text) → text_eq j trg.key ≡ false → text_eq src.key j ≡ false
        apart_from j n = elim (Bool-cases (text_eq src.key j)) [
          | inr k ↦ k
          | inl k ↦ ground (arith, ap (λ x. text_eq x trg.key) (text_eq_sound src.key j k), e, n)
        ]

    -- the target's tail, where the source is another key
    target : text_eq trg.key src.key ≡ false → v tt ≡ opened v (node s.nodes tt) ++ f trg.key
    unfolding flat_map
    target n =
        o.elsewhere tt (ground (arith, g.below trg.key b tt ht, length_after)) (
          no_tail tt (below_new trg.key b tt ht)
            (λ j d l m h. distinct_tail s g trg.key j b d tt l (text_eq_sym trg.key j ∙ m) ht h))
        ∙ ap (opened v) (
            node_after tt
            ∙ ap (λ c. if c then base tt ++ deque new ∷ [] else base tt) (==_refl tt)
            ∙ ap
                (λ c.
                  (if c
                    then node s.nodes ts ++ command (move src trg) ∷ deque new ∷ []
                    else node s.nodes tt)
                  ++ deque new ∷ [])
                (distinct_tail s g trg.key src.key b a tt ts n ht hs))
        ∙ opened-append v (node s.nodes tt) (deque new ∷ [])
        ∙ ap (λ z. opened v (node s.nodes tt) ++ z) (append-nil (v new) ∙ opened_new)

    at_source :
        (k : Text) (c i : ℕ)
        → mods_at s k ≡ some (c, i)
        → text_eq k src.key ≡ true
        → v i ≡ opened v (node s.nodes i) ++ move src trg ∷ f trg.key
    at_source k c i h e =
        let is_ts = same_tail s k src.key c a i ts e h hs in
        ap v is_ts
        ∙ elim (Bool-cases (text_eq src.key trg.key)) [
          | inl m ↦ source_same m
          | inr m ↦ source_apart m
        ]
        ∙ ap (λ x. opened v (node s.nodes x) ++ move src trg ∷ f trg.key) (sym is_ts)

    at_others :
        (k : Text) (c i : ℕ)
        → mods_at s k ≡ some (c, i)
        → text_eq k src.key ≡ false
        → v i ≡ opened v (node s.nodes i) ++ f k
    at_others k c i h e = elim (Bool-cases (text_eq k trg.key)) [
      | inl m ↦
          let is_tt = same_tail s k trg.key c b i tt m h ht in
          ap v is_tt
          ∙ target (sym (ap (λ x. text_eq x src.key) (text_eq_sound k trg.key m)) ∙ e)
          ∙ ap (λ x. opened v (node s.nodes x) ++ f trg.key) (sym is_tt)
          ∙ ap (λ x. opened v (node s.nodes i) ++ f x) (sym (text_eq_sound k trg.key m))
      | inr m ↦
          o.at_tail k c i (old_key k m ∙ h)
          ∙ ap (λ z. opened v z ++ f k)
              (node_other i (distinct_tail s g k src.key c a i ts e h hs)
                (distinct_tail s g k trg.key c b i tt m h ht))
    ]

    pub relink-Solves : Solves v s before
    relink-Solves = record {
      at_tail = λ k c i h. elim (Bool-cases (text_eq k src.key)) [
        | inl e ↦
            at_source k c i h e
            ∙ ap (λ x. opened v (node s.nodes i) ++ (if x then move src trg ∷ f trg.key else f k))
                (sym e)
        | inr e ↦
            at_others k c i h e
            ∙ ap (λ x. opened v (node s.nodes i) ++ (if x then move src trg ∷ f trg.key else f k))
                (sym e)
      ];
      elsewhere = λ i h m.
          o.elsewhere i (ground (arith, h, length_after))
            (no_tail i (ground (arith, h)) (λ j d l n k. m j d l k))
          ∙ ap (opened v) (node_other i (m src.key a ts hs) (m trg.key b tt ht));
    }
