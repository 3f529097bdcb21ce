-- ===== src/Prelude/Strings.antt =====
-- A Go string is its bytes. Equality, membership, and the functions of package strings that the
-- source calls.
use Prim.Native.Nat.{suc, ℕ, compare, Ordering}
use Prim.Native.Char.{code}
use Prim.Native.String.{String}
use mathlib.Core.Path.{◌≡◌, refl, ap₂, sym, ◌∙◌}
use mathlib.Core.Logic.{◌↔◌, inl, inr}
use mathlib.Core.Bool.{Bool, true, false, ◌&&◌}
use mathlib.Core.List.{List, [], ◌∷◌, ◌++◌, append_assoc, append-nil}
use native.Mathlib.Omega.{arith}
use fold.Prelude.Tests.{◌==◌, ==_iff, Bool-cases, if◌then◌else◌}
use fold.Prelude.Lists.{any, length}

abbrev pub Str : Type 0
Str = List ℕ

-- The bytes of an ASCII literal.
abbrev pub str : String → Str
str String.[] = []
str (String.◌∷◌ c s) = code c ∷ str s

unfoldable pub str_eq : Str → Str → Bool
str_eq [] [] = true
str_eq [] (c ∷ t) = false
str_eq (b ∷ s) [] = false
str_eq (b ∷ s) (c ∷ t) = b == c && str_eq s t

pub str_eq→eq : (s t : Str) → str_eq s t ≡ true → s ≡ t
unfolding str_eq
str_eq→eq [] [] h = refl
str_eq→eq [] (c ∷ t) h = ground arith
str_eq→eq (b ∷ s) [] h = ground arith
str_eq→eq (b ∷ s) (c ∷ t) h = ground (arith, str_eq→eq s t)

pub str_eq_refl : (s : Str) → str_eq s s ≡ true
unfolding str_eq
str_eq_refl [] = refl
str_eq_refl (b ∷ s) = ground (arith, str_eq_refl s)

pub str_eq_iff : (s t : Str) → (str_eq s t ≡ true) ↔ (s ≡ t)
str_eq_iff s t = (str_eq→eq s t, λ e. ground (arith, str_eq_refl s))

-- `slices.Contains` on strings.
abbrev pub contains : List Str → Str → Bool
contains xs v = any (λ x. str_eq x v) xs

-- `strings.HasPrefix`.
unfoldable pub has_prefix : Str → Str → Bool
has_prefix s [] = true
has_prefix [] (c ∷ p) = false
has_prefix (b ∷ s) (c ∷ p) = b == c && has_prefix s p

-- `strings.Split` by a separator of one byte: never empty.
unfoldable pub split_rest : ℕ → Str → Str → List Str
split_rest sep word [] = word ∷ []
split_rest sep word (c ∷ s) =
    let next = split_rest sep [] s in
    let more = split_rest sep (word ++ c ∷ []) s in if c == sep then word ∷ next else more

unfoldable pub split : ℕ → Str → List Str
unfolding split_rest
split sep s = split_rest sep [] s

-- `strings.Join` with a separator of one byte.
unfoldable pub join : ℕ → List Str → Str
join sep [] = []
join sep (w ∷ []) = w
join sep (w ∷ v ∷ ws) = w ++ sep ∷ join sep (v ∷ ws)

join-cons :
    (sep : ℕ) (w : Str) (ws : List Str) (v : Str) (vs : List Str)
    → ws ≡ v ∷ vs
    → join sep (w ∷ ws) ≡ w ++ sep ∷ join sep ws
unfolding join
join-cons sep w ws v vs e = rw e refl

split_rest-ne :
    (sep : ℕ) (word s : Str) → (v : Str) × (vs : List Str) × (split_rest sep word s ≡ v ∷ vs)
unfolding split_rest
split_rest-ne sep word [] = (word, [], refl)
split_rest-ne sep word (c ∷ s) = elim (Bool-cases (c == sep)) [
  | inl e ↦ (word, split_rest sep [] s, rw e)
  | inr e ↦ let (v, vs, h) = split_rest-ne sep (word ++ c ∷ []) s in (v, vs, rw e h)
]

join-split_rest : (sep : ℕ) (word s : Str) → join sep (split_rest sep word s) ≡ word ++ s
unfolding split_rest join
join-split_rest sep word [] = sym (append-nil word)
join-split_rest sep word (c ∷ s) = elim (Bool-cases (c == sep)) [
  | inl e ↦
      let (v, vs, h) = split_rest-ne sep [] s in
      let same : c ≡ sep = (==_iff c sep).0 e in
      rw e (
        join-cons sep word (split_rest sep [] s) v vs h
        ∙ ap₂ (λ k t. word ++ k ∷ t) (sym same) (join-split_rest sep [] s))
  | inr e ↦ rw e (join-split_rest sep (word ++ c ∷ []) s ∙ append_assoc word (c ∷ []) s)
]

pub join-split : (sep : ℕ) (s : Str) → join sep (split sep s) ≡ s
unfolding split
join-split sep s = join-split_rest sep [] s

-- `strings.Compare(s, t) <= 0`.
unfoldable pub str_le : Str → Str → Bool
str_le [] t = true
str_le (b ∷ s) [] = false
str_le (b ∷ s) (c ∷ t) = elim (compare b c) [
  | Ordering.lt ↦ true
  | Ordering.eq ↦ str_le s t
  | Ordering.gt ↦ false
]

pub str_le_total : (s t : Str) → str_le s t ≡ false → str_le t s ≡ true
unfolding str_le
str_le_total [] t h = ground arith
str_le_total (b ∷ s) [] h = refl
str_le_total (b ∷ s) (c ∷ t) h = ground (arith, str_le_total s t)

pub str_le_antisymm : (s t : Str) → str_le s t ≡ true → str_le t s ≡ true → s ≡ t
unfolding str_le
str_le_antisymm [] [] h k = refl
str_le_antisymm [] (c ∷ t) h k = ground arith
str_le_antisymm (b ∷ s) [] h k = ground arith
str_le_antisymm (b ∷ s) (c ∷ t) h k = ground (arith, str_le_antisymm s t)

pub str_le_trans : (s t u : Str) → str_le s t ≡ true → str_le t u ≡ true → str_le s u ≡ true
unfolding str_le
str_le_trans [] t u h k = refl
str_le_trans (b ∷ s) [] u h k = ground arith
str_le_trans (b ∷ s) (c ∷ t) [] h k = ground arith
str_le_trans (b ∷ s) (c ∷ t) (d ∷ u) h k = ground (arith, str_le_trans s t u)

-- `sort.Strings`, by insertion.
abbrev pub place_string : Str → List Str → List Str
place_string x [] = x ∷ []
place_string x (y ∷ ys) =
    let rest = place_string x ys in if str_le x y then x ∷ y ∷ ys else y ∷ rest

abbrev pub sort_strings : List Str → List Str
sort_strings [] = []
sort_strings (x ∷ xs) = place_string x (sort_strings xs)

length-place_string : (x : Str) (ys : List Str) → length (place_string x ys) ≡ suc (length ys)
length-place_string x [] = refl
length-place_string x (y ∷ ys) = ground (arith, length-place_string x ys)

pub length-sort_strings : (xs : List Str) → length (sort_strings xs) ≡ length xs
length-sort_strings [] = refl
length-sort_strings (x ∷ xs) =
    ground (arith, length-sort_strings xs, length-place_string x (sort_strings xs))
