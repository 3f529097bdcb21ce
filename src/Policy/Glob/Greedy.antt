-- ===== src/Policy/Glob/Greedy.antt =====
-- The matcher takes the leftmost place for each part. That finds a match whenever there is one.
use fold.Prelude.{
  ℕ, suc, ◌+◌, ◌-◌, ◌≤◌, true, List, [], ◌∷◌, ◌++◌, Option, none, some, Str, str_eq_iff, has_prefix,
  length, drop, take, take-append-drop, length-append, subst, if◌then◌else◌, ◌≡◌, refl, sym, ap,
  ◌∙◌, inl, inr, ◌↔◌, arith, append_assoc, Bool-cases, Option-cases,
}
use fold.Policy.Glob.{index, shift, has_suffix, match_rest, match_parts}

-- What a pattern asks for, by its parts: a name is the first part, then any text, then the next
-- part, and so on; the last part ends it.
abbrev pub Floats : List Str → Str → Type 0
Floats [] s = ⊥
Floats (last ∷ []) s = (gap : Str) × (s ≡ gap ++ last)
Floats (part ∷ next ∷ parts) s =
    (gap : Str) × (rest : Str) × (s ≡ gap ++ (part ++ rest)) × Floats (next ∷ parts) rest

abbrev pub Fits : List Str → Str → Type 0
Fits [] s = ⊥
Fits (literal ∷ []) s = literal ≡ s
Fits (first ∷ next ∷ parts) s = (rest : Str) × (s ≡ first ++ rest) × Floats (next ∷ parts) rest

has_prefix_iff : (s p : Str) → (has_prefix s p ≡ true) ↔ (s ≡ p ++ drop (length p) s)
unfolding has_prefix
has_prefix_iff s [] = (λ _. refl, λ _. refl)
has_prefix_iff [] (c ∷ p) = (λ h. ground arith, λ h. ground arith)
has_prefix_iff (b ∷ s) (c ∷ p) =
    (λ h. ground (arith, (has_prefix_iff s p).0), λ h. ground (arith, (has_prefix_iff s p).1))

drop-append : (p s : Str) → drop (length p) (p ++ s) ≡ s
drop-append [] s = refl
drop-append (c ∷ p) s = drop-append p s

has_prefix-append : (p s : Str) → has_prefix (p ++ s) p ≡ true
has_prefix-append p s = (has_prefix_iff (p ++ s) p).1 (ap (◌++◌ p) (sym (drop-append p s)))

-- What stands behind the leftmost occurrence.
cut : Str → Str → Option Str
cut [] part = if has_prefix [] part then some (drop (length part) []) else none
cut (c ∷ s) part = if has_prefix (c ∷ s) part then some (drop (length part) (c ∷ s)) else cut s part

drop_step : (n m c : ℕ) (s : Str) → n ≡ suc m → drop n (c ∷ s) ≡ drop m s
drop_step n m c s e = ground (arith, e)

abbrev behind : Str → Str → Option ℕ → Option Str
behind s part none = none
behind s part (some i) = some (drop (i + length part) s)

behind-shift :
    (c : ℕ) (s part : Str) (o : Option ℕ) → behind (c ∷ s) part (shift o) ≡ behind s part o
behind-shift c s part none = refl
behind-shift c s part (some i) = ap some (drop_step _ _ c s (omega arith))

cut-index : (s part : Str) → cut s part ≡ behind s part (index s part)
unfolding cut index
cut-index [] part = ground arith
cut-index (c ∷ s) part = elim (Bool-cases (has_prefix (c ∷ s) part)) [
  | inl here ↦ rw (here) (ap (λ n. some (drop n (c ∷ s))) (omega arith))
  | inr later ↦ rw (later) (cut-index s part ∙ sym (behind-shift c s part (index s part)))
]

cut_sound : (s part r : Str) → cut s part ≡ some r → (gap : Str) × (s ≡ gap ++ (part ++ r))
unfolding cut
cut_sound [] part r h = elim (Bool-cases (has_prefix [] part)) [
  | inl here ↦ ([], ground (arith, (has_prefix_iff [] part).0))
  | inr later ↦ absurd (ground arith)
]
cut_sound (c ∷ s) part r h = elim (Bool-cases (has_prefix (c ∷ s) part)) [
  | inl here ↦ ([], ground (arith, (has_prefix_iff (c ∷ s) part).0))
  | inr later ↦ let (gap, e) = cut_sound s part r (ground arith) in (c ∷ gap, ap (◌∷◌ c) e)
]

-- Of two ends of one text the longer one ends with the other.
append_split :
    (a r b rest : Str) → a ++ r ≡ b ++ rest → length a ≤ length b → (x : Str) × (r ≡ x ++ rest)
append_split [] r b rest e h = (b, e)
append_split (c ∷ a) r [] rest e h = absurd (omega arith)
append_split (c ∷ a) r (d ∷ b) rest e h = append_split a r b rest (ground arith) (omega arith)

abbrev CutsBefore : Str → Str → Str → Type 0
CutsBefore s part rest = (r : Str) × (x : Str) × (cut s part ≡ some r) × (r ≡ x ++ rest)

cut_here : (s part rest : Str) → s ≡ part ++ rest → cut s part ≡ some rest
unfolding cut
cut_here [] part rest e =
    let p = has_prefix-append part rest in let d = drop-append part rest in ground (arith, e, p, d)
cut_here (c ∷ s) part rest e =
    let p = has_prefix-append part rest in let d = drop-append part rest in ground (arith, e, p, d)

cut_complete : (gap s part rest : Str) → s ≡ gap ++ (part ++ rest) → CutsBefore s part rest
unfolding cut
cut_complete [] s part rest e = (rest, [], cut_here s part rest e, refl)
cut_complete (g ∷ gap) [] part rest e = absurd (ground arith)
cut_complete (g ∷ gap) (c ∷ s) part rest e = elim (Bool-cases (has_prefix (c ∷ s) part)) [
  | inl here ↦
      let r = drop (length part) (c ∷ s) in
      let whole = (has_prefix_iff (c ∷ s) part).0 here in
      let regroup = append_assoc (g ∷ gap) part rest in
      let (x, ends) =
        append_split part r ((g ∷ gap) ++ part) rest (sym whole ∙ e ∙ sym regroup)
          (omega (arith, length-append (g ∷ gap) part)) in
      (r, x, rw here, ends)
  | inr later ↦
      let (r, x, found, ends) = cut_complete gap s part rest (ground arith) in
      (r, x, rw later found, ends)
]

Floats-append : (ws : List Str) (x s : Str) → Floats ws s → Floats ws (x ++ s)
Floats-append [] x s h = h
Floats-append (last ∷ []) x s (gap, e) = (x ++ gap, rw e (sym (append_assoc x gap last)))
Floats-append (part ∷ next ∷ ws) x s (gap, rest, e, h) =
    (x ++ gap, rest, rw e (sym (append_assoc x gap (part ++ rest))), h)

has_suffix_sound : (s last : Str) → has_suffix s last ≡ true → (gap : Str) × (s ≡ gap ++ last)
unfolding has_suffix
has_suffix_sound s last h =
    let n = length s - length last in
    let e : drop n s ≡ last = ground (arith, str_eq_iff (drop n s) last) in
    (take n s, sym (take-append-drop n s) ∙ ap (λ t. take n s ++ t) e)

has_suffix-append : (gap last : Str) → has_suffix (gap ++ last) last ≡ true
unfolding has_suffix
has_suffix-append gap last =
    let n = length-append gap last in
    let e : length (gap ++ last) - length last ≡ length gap = omega (arith, n) in
    rw e (ground (arith, n, drop-append gap last, str_eq_iff last last))

match_rest_sound : (ws : List Str) (s : Str) → match_rest ws s ≡ true → Floats ws s
unfolding match_rest
match_rest_sound [] s h = absurd (ground arith)
match_rest_sound (last ∷ []) s h = has_suffix_sound s last h
match_rest_sound (part ∷ next ∷ ws) s h = elim (Option-cases (index s part)) [
  | inl e ↦ absurd (ground arith)
  | inr (i, e) ↦
      let rest = drop (i + length part) s in
      let found : cut s part ≡ some rest = rw (cut-index s part, e) in
      let (gap, whole) = cut_sound s part rest found in
      (gap, rest, whole, match_rest_sound (next ∷ ws) rest (rw (e, match_rest) at h))
]

match_rest_complete : (ws : List Str) (s : Str) → Floats ws s → match_rest ws s ≡ true
unfolding match_rest
match_rest_complete [] s h = elim h [ ]
match_rest_complete (last ∷ []) s (gap, e) = rw e (has_suffix-append gap last)
match_rest_complete (part ∷ next ∷ ws) s (gap, rest, e, h) =
    let (r, x, found, ends) = cut_complete gap s part rest e in
    let later : match_rest (next ∷ ws) r ≡ true =
      match_rest_complete (next ∷ ws) r
        (subst (Floats (next ∷ ws)) (sym ends) (Floats-append (next ∷ ws) x rest h)) in
    elim (Option-cases (index s part)) [
      | inl miss ↦ absurd (ground (arith, cut-index s part))
      | inr (i, hit) ↦ ground (arith, cut-index s part)
    ]

-- The matcher accepts a name exactly when the parts stand in it in order and without overlap, the
-- first at its start and the last at its end.
pub match_parts-Fits :
    (parts : List Str) (name : Str) → (match_parts parts name ≡ true) ↔ Fits parts name
unfolding match_parts
match_parts-Fits [] name = (λ h. absurd (ground arith), λ h. elim h [ ])
match_parts-Fits (literal ∷ []) name = str_eq_iff literal name
match_parts-Fits (first ∷ next ∷ parts) name = (there, back)
  where
    there : match_parts (first ∷ next ∷ parts) name ≡ true → Fits (first ∷ next ∷ parts) name
    there h = elim (Bool-cases (has_prefix name first)) [
      | inl e ↦ (
        drop (length first) name,
        (has_prefix_iff name first).0 e,
        match_rest_sound (next ∷ parts) _ (rw e at h),
      )
      | inr e ↦ absurd (ground arith)
    ]

    back : Fits (first ∷ next ∷ parts) name → match_parts (first ∷ next ∷ parts) name ≡ true
    back (rest, e, h) =
        rw (e, has_prefix-append first rest, drop-append first rest)
          (match_rest_complete (next ∷ parts) rest h)
