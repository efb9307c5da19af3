-- ===== src/Ebuild/FilterEnv/Here.antt =====
-- When the search for the end of a here document ends.
use pkgcore.Prelude.{
  ℕ, zero, suc, ◌+◌, ◌≤◌, ◌<◌, Bool, true, false, ◌&&◌, ◌≡◌, refl, ap, ◌∙◌, [], ◌∷◌, some, ◌==◌,
  if◌then◌else◌, length, drop, take, arith, Bool-cases, Option-cases, inl, inr, and_right,
}
use pkgcore.Prelude.Text.{Text, starts_with}
use pkgcore.Ebuild.FilterEnv.{
  find_word, Search, found, index_error, out_of_fuel, behind_newline, closes, search_here,
}

starts_with-length : (word s : Text) → starts_with word s ≡ true → length word ≤ length s
unfolding starts_with
starts_with-length [] s h = omega arith
starts_with-length (c ∷ word) [] h = cc
starts_with-length (c ∷ word) (d ∷ s) h =
    let k = starts_with-length word s (and_right (c == d) _ h) in omega (arith, k)

some_same : (a b : ℕ) → some a ≡ some b → a ≡ b
some_same a b h = cc

-- A word is found at or behind the position, and within the text.
find_word-bounds :
    (word s : Text) (pos p : ℕ)
    → find_word word pos s ≡ some p
    → (pos ≤ p) × (p + length word ≤ pos + length s)
unfolding find_word
find_word-bounds [] [] pos p h = let e = some_same pos p h in (omega (arith, e), omega (arith, e))
find_word-bounds (d ∷ word) [] pos p h = cc
find_word-bounds word (c ∷ s) pos p h =
    found_at (starts_with word (c ∷ s)) refl h (find_word-bounds word s (suc pos) p)
  where
    found_at :
        (b : Bool)
        → starts_with word (c ∷ s) ≡ b
        → (if b then some pos else find_word word (suc pos) s) ≡ some p
        → (find_word word (suc pos) s ≡ some p
            → (suc pos ≤ p) × (p + length word ≤ suc pos + length s))
        → (pos ≤ p) × (p + length word ≤ pos + length (c ∷ s))
    found_at true e k behind =
        let same = some_same pos p k in
        let fits = starts_with-length word (c ∷ s) e in
        (omega (arith, same), omega (arith, same, fits))
    found_at false e k behind = let (a, b) = behind k in (omega (arith, a), omega (arith, b))

length-drop : (n : ℕ) (s : Text) → n ≤ length s → n + length (drop n s) ≡ length s
length-drop zero s h = omega arith
length-drop (suc n) [] h = omega arith
length-drop (suc n) (c ∷ s) h = let k = length-drop n s (omega arith) in omega (arith, k)

abbrev pub is_out : Search → Bool
is_out out_of_fuel = true
is_out _ = false

-- Where a word was found, the search ends or goes on.
is_out-next :
    (t : Text) (ends : Bool) (p : ℕ) (rest : Search)
    → is_out rest ≡ false
    → is_out (elim t [ [] ↦ index_error | (c ∷ s) ↦ if closes c && ends then found p else rest ])
      ≡ false
is_out-next [] ends p rest h = refl
is_out-next (c ∷ s) ends p rest h = elim (Bool-cases (closes c && ends)) [
  | inl e ↦ rw e refl
  | inr e ↦ rw e h
]

-- The search for a word that is not empty ends, from any position of the text, within as many
-- rounds as there are characters behind the position, and one.
pub search_here-ends :
    (fuel : ℕ) (c : ℕ) (word buff : Text) (pos : ℕ)
    → pos ≤ length buff
    → length buff < pos + fuel
    → is_out (search_here fuel (c ∷ word) buff pos) ≡ false
unfolding search_here
search_here-ends zero c word buff pos h k = ground (arith, h, k)
search_here-ends (suc fuel) c word buff pos h k =
    elim (Option-cases (find_word (c ∷ word) pos (drop pos buff))) [
      | inl e ↦ rw (e, is_out, search_here) refl
      | inr (p, e) ↦
          let (a, b) = find_word-bounds (c ∷ word) (drop pos buff) pos p e in
          let whole = length-drop pos buff h in
          rw (e, is_out, search_here)
            (is_out-next (drop (p + length (c ∷ word)) buff) (behind_newline false (take p buff))
              (p + length (c ∷ word)) (search_here fuel (c ∷ word) buff (p + length (c ∷ word)))
              (search_here-ends fuel c word buff (p + length (c ∷ word)) (omega (arith, b, whole))
                (omega (arith, k, a))))
    ]

find_word-empty : (pos : ℕ) (s : Text) → find_word [] pos s ≡ some pos
unfolding find_word starts_with
find_word-empty pos [] = refl
find_word-empty pos (c ∷ s) = refl

-- The search for an empty word that does not end at once never ends: it stays at its position,
-- however many rounds it is given.
pub search_here-empty :
    (fuel : ℕ) (buff : Text) (pos c : ℕ) (s : Text)
    → drop pos buff ≡ c ∷ s
    → (closes c && behind_newline false (take pos buff)) ≡ false
    → search_here fuel [] buff pos ≡ out_of_fuel
unfolding search_here
search_here-empty zero buff pos c s h k = refl
search_here-empty (suc fuel) buff pos c s h k =
    let here : (pos + 0) ≡ pos = omega arith in
    rw (find_word-empty pos (drop pos buff), search_here)
      (rw here (
        rw h (
          rw k
            (ap (λ q. search_here fuel [] buff q) here ∙ search_here-empty fuel buff pos c s h k))))
