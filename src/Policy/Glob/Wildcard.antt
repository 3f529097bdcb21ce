-- ===== src/Policy/Glob/Wildcard.antt =====
-- The pattern language read byte by byte, and the matcher against it.
use fold.Prelude.{
  ℕ, ◌==◌, ==_iff, List, [], ◌∷◌, ◌++◌, true, Str, split_rest, split, ◌≡◌, refl, sym, ap, ◌∙◌, ◌≢◌,
  ◌↔◌, inl, inr, subst, arith, append_assoc, append-nil, Bool-cases,
}
use fold.Policy.Glob.{star, compile_glob, match, glob_match}
use fold.Policy.Glob.Greedy.{Floats, Fits, match_parts-Fits}

-- A `*` stands for any text, and any other byte for itself.
pub data Wild : Str → Str → Type 0 where
  done : Wild [] []
  same : {c : ℕ} {p s : Str} → c ≢ star → Wild p s → Wild (c ∷ p) (c ∷ s)
  gap : {c : ℕ} {p rest s : Str} (g : Str) → c ≡ star → s ≡ g ++ rest → Wild p rest → Wild (c ∷ p) s

split_rest-ne : (word p : Str) → (v : Str) × (vs : List Str) × (split_rest star word p ≡ v ∷ vs)
unfolding split_rest
split_rest-ne word [] = (word, [], refl)
split_rest-ne word (c ∷ p) = elim (Bool-cases (c == star)) [
  | inl e ↦ (word, split_rest star [] p, rw e)
  | inr e ↦ let (v, vs, h) = split_rest-ne (word ++ c ∷ []) p in (v, vs, rw e h)
]

-- Behind a first part the rest of the pattern floats.
Fits-cons :
    (word s : Str) (ws : List Str) (v : Str) (vs : List Str)
    → ws ≡ v ∷ vs
    → Fits (word ∷ ws) s ↔ ((rest : Str) × (s ≡ word ++ rest) × Floats ws rest)
Fits-cons word s ws v vs e = rw e (λ h. h, λ h. h)

Floats-cons :
    (word s : Str) (ws : List Str) (v : Str) (vs : List Str)
    → ws ≡ v ∷ vs
    → Floats (word ∷ ws) s
      ↔ ((gap : Str) × (rest : Str) × (s ≡ gap ++ (word ++ rest)) × Floats ws rest)
Floats-cons word s ws v vs e = rw e (λ h. h, λ h. h)

abbrev Starts : Str → Str → Str → Type 0
Starts word p s = (rest : Str) × (s ≡ word ++ rest) × Wild p rest

abbrev Occurs : Str → Str → Str → Type 0
Occurs word p s = (g : Str) × (rest : Str) × (s ≡ g ++ (word ++ rest)) × Wild p rest

-- One byte moves from the pattern to the part that is being read.
regroup : (word rest : Str) (c : ℕ) → (word ++ c ∷ []) ++ rest ≡ word ++ (c ∷ rest)
regroup word rest c = append_assoc word (c ∷ []) rest

Wild-nil : (s : Str) → Wild [] s → s ≡ []
Wild-nil s done = refl

Wild-star : (c : ℕ) (p s : Str) → c ≡ star → Wild (c ∷ p) s → Occurs [] p s
Wild-star c p s e (same n w) = absurd (n e)
Wild-star c p s e (gap {rest = rest} g _ h w) = (g, rest, h, w)

Wild-byte : (c : ℕ) (p s : Str) → c ≢ star → Wild (c ∷ p) s → Starts (c ∷ []) p s
Wild-byte c p s n (same {s = t} _ w) = (t, refl, w)
Wild-byte c p s n (gap g e _ w) = absurd (n e)

Floats→Occurs : (word p s : Str) → Floats (split_rest star word p) s → Occurs word p s
unfolding split_rest
Floats→Occurs word [] s (g, e) = (g, [], rw append-nil e, done)
Floats→Occurs word (c ∷ p) s h = elim (Bool-cases (c == star)) [
  | inl e ↦
      let (v, vs, ne) = split_rest-ne [] p in
      let (g, rest, whole, later) =
        (Floats-cons word s (split_rest star [] p) v vs ne).0 (rw e at h) in
      let (g', rest', whole', w) = Floats→Occurs [] p rest later in
      (g, rest, whole, gap g' ((==_iff c star).0 e) whole' w)
  | inr e ↦
      let (g, rest, whole, w) = Floats→Occurs (word ++ c ∷ []) p s (rw e at h) in
      (g, c ∷ rest, whole ∙ ap (◌++◌ g) (regroup word rest c), same (λ k. ground arith) w)
]

Occurs→Floats : (word p s : Str) → Occurs word p s → Floats (split_rest star word p) s
unfolding split_rest
Occurs→Floats word [] s (g, rest, e, w) =
    (g, e ∙ ap (λ t. g ++ (word ++ t)) (Wild-nil rest w) ∙ ap (◌++◌ g) (append-nil word))
Occurs→Floats word (c ∷ p) s (g, rest, e, w) = elim (Bool-cases (c == star)) [
  | inl is ↦
      let (v, vs, ne) = split_rest-ne [] p in
      let tail = Occurs→Floats [] p rest (Wild-star c p rest ((==_iff c star).0 is) w) in
      rw is ((Floats-cons word s (split_rest star [] p) v vs ne).1 (g, rest, e, tail))
  | inr other ↦
      let (rest', e', w') = Wild-byte c p rest (λ k. ground arith) w in
      rw other (
        Occurs→Floats (word ++ c ∷ []) p s (
          g,
          rest',
          e ∙ ap (λ t. g ++ (word ++ t)) e' ∙ ap (◌++◌ g) (sym (regroup word rest' c)),
          w',
        ))
]

Fits→Starts : (word p s : Str) → Fits (split_rest star word p) s → Starts word p s
unfolding split_rest
Fits→Starts word [] s e = ([], rw append-nil (sym e), done)
Fits→Starts word (c ∷ p) s h = elim (Bool-cases (c == star)) [
  | inl e ↦
      let (v, vs, ne) = split_rest-ne [] p in
      let (rest, whole, later) = (Fits-cons word s (split_rest star [] p) v vs ne).0 (rw e at h) in
      let (g', rest', whole', w) = Floats→Occurs [] p rest later in
      (rest, whole, gap g' ((==_iff c star).0 e) whole' w)
  | inr e ↦
      let (rest, whole, w) = Fits→Starts (word ++ c ∷ []) p s (rw e at h) in
      (c ∷ rest, whole ∙ regroup word rest c, same (λ k. ground arith) w)
]

Starts→Fits : (word p s : Str) → Starts word p s → Fits (split_rest star word p) s
unfolding split_rest
Starts→Fits word [] s (rest, e, w) =
    sym (e ∙ ap (λ t. word ++ t) (Wild-nil rest w) ∙ append-nil word)
Starts→Fits word (c ∷ p) s (rest, e, w) = elim (Bool-cases (c == star)) [
  | inl is ↦
      let (v, vs, ne) = split_rest-ne [] p in
      let tail = Occurs→Floats [] p rest (Wild-star c p rest ((==_iff c star).0 is) w) in
      rw is ((Fits-cons word s (split_rest star [] p) v vs ne).1 (rest, e, tail))
  | inr other ↦
      let (rest', e', w') = Wild-byte c p rest (λ k. ground arith) w in
      rw other (
        Starts→Fits (word ++ c ∷ []) p s
          (rest', e ∙ ap (λ t. word ++ t) e' ∙ sym (regroup word rest' c), w'))
]

-- A pattern that `compileGlob` split at its stars accepts a name exactly when the name is the
-- pattern with some text put in for each star. The search for the parts never backtracks, and it
-- misses no match.
pub glob_match-Wild : (pattern name : Str) → (glob_match pattern name ≡ true) ↔ Wild pattern name
unfolding glob_match compile_glob match split
glob_match-Wild pattern name = (there, back)
  where
    both : (match (compile_glob pattern) name ≡ true) ↔ Fits (split_rest star [] pattern) name
    both = match_parts-Fits (split_rest star [] pattern) name

    there : match (compile_glob pattern) name ≡ true → Wild pattern name
    there h =
        let (rest, e, w) = Fits→Starts [] pattern name (both.0 h) in subst (Wild pattern) (sym e) w

    back : Wild pattern name → match (compile_glob pattern) name ≡ true
    back w = both.1 (Starts→Fits [] pattern name (name, refl, w))
