-- ===== src/Gateway/Shaping/Caps.antt =====
-- gateway/shaping.go: what the caps bound, and what the counters count.
use fold.Prelude.{
  ℕ, ◌+◌, ◌≤◌, ℤ, is_positive, pos_part, Bool, true, ◌&&◌, List, [], ◌∷◌, length, All, Option, Str,
  str_eq, str_eq_iff, lookup, lookup-insert, ◌≡◌, refl, arith, inl, inr, Bool-cases, if◌then◌else◌,
}
use fold.Auth.{Principal}
use fold.Policy.Engine.{Decision, Engine}
use fold.Gateway.Shaping.{ListFilter, count_of, filter_decide, new_list_filter}

-- One list: its decisions in merge order, and for each whether the item is served.
unfoldable pub filter_all : List Decision → ListFilter → ListFilter × List Bool
unfolding filter_decide
filter_all [] f = (f, [])
filter_all (d ∷ ds) f =
    let (f', shown) = filter_decide f d in let (f'', rest) = filter_all ds f' in (f'', shown ∷ rest)

-- How many served items a rule let through.
unfoldable pub served_by : Str → List Decision → List Bool → ℕ
served_by id [] shown = 0
served_by id (d ∷ ds) [] = 0
served_by id (d ∷ ds) (b ∷ shown) =
    (if b && str_eq d.rule_id id then 1 else 0) + served_by id ds shown

-- Every decision by this rule carries its cap.
abbrev pub Capped : Str → ℤ → Decision → Type 0
Capped id cap d = d.rule_id ≡ id → d.max_items ≡ cap

served_round :
    (id : Str) (cap : ℤ) (f : ListFilter) (d : Decision)
    → is_positive cap ≡ true
    → Capped id cap d
    → count_of (lookup id f.admitted) ≤ pos_part cap
    → let (f', b) = filter_decide f d in
      ((if b && str_eq d.rule_id id then 1 else 0) + count_of (lookup id f.admitted)
        ≡ count_of (lookup id f'.admitted))
      × (count_of (lookup id f'.admitted) ≤ pos_part cap)
unfolding filter_decide
served_round id cap f d h c k =
    let grown =
      lookup-insert d.rule_id id (count_of (lookup d.rule_id f.admitted) + 1) f.admitted in
    elim (Bool-cases (str_eq d.rule_id id)) [
      | inl e ↦
          let same = (str_eq_iff d.rule_id id).0 e in
          (ground (arith, h, c same, e, same, grown), ground (arith, h, c same, e, same, grown))
      | inr e ↦ (ground (arith, e, grown), ground (arith, e, grown))
    ]

served_total :
    (id : Str) (cap : ℤ) (ds : List Decision) (f : ListFilter)
    → is_positive cap ≡ true
    → All (Capped id cap) ds
    → count_of (lookup id f.admitted) ≤ pos_part cap
    → served_by id ds (filter_all ds f).1 + count_of (lookup id f.admitted) ≤ pos_part cap
unfolding filter_all served_by
served_total id cap [] f h c k = omega arith
served_total id cap (d ∷ ds) f h c k =
    let (counted, below) = served_round id cap f d h c.0 k in
    omega (arith, counted, served_total id cap ds (filter_decide f d).0 h c.1 below)

-- A rule's cap bounds what one list serves on its account, whatever the list and its order.
pub served_by-le_cap :
    (id : Str) (cap : ℤ) (ds : List Decision) (principal : Option Principal) (e : Engine)
    (method : Str)
    → is_positive cap ≡ true
    → All (Capped id cap) ds
    → served_by id ds (filter_all ds (new_list_filter principal e method)).1 ≤ pos_part cap
unfolding new_list_filter
served_by-le_cap id cap ds principal e method h c =
    let none_yet : count_of (lookup {V = ℕ} id []) ≡ 0 = unfold lookup in refl in
    omega (
      arith,
      none_yet,
      served_total id cap ds (new_list_filter principal e method) h c (omega (arith, none_yet)),
    )

abbrev pub how_many {ℓ} : {A : Type ℓ} → (A → Bool) → List A → ℕ
how_many p [] = 0
how_many p (x ∷ xs) = (if p x then 1 else 0) + how_many p xs

counters_round :
    (f : ListFilter) (d : Decision)
    → let (f', b) = filter_decide f d in
      (f'.offered ≡ f.offered + 1)
      × (f'.served ≡ f.served + (if b then 1 else 0))
      × (f'.served + f'.capped ≡ f.served + f.capped + (if d.allowed then 1 else 0))
unfolding filter_decide
counters_round f d = (ground arith, ground arith, ground arith)

counters_all :
    (ds : List Decision) (f : ListFilter)
    → let (f', shown) = filter_all ds f in
      (f'.offered ≡ f.offered + length ds)
      × (f'.served ≡ f.served + how_many (λ b. b) shown)
      × (f'.served + f'.capped ≡ f.served + f.capped + how_many (λ d. d.allowed) ds)
unfolding filter_all
counters_all [] f = (omega arith, omega arith, omega arith)
counters_all (d ∷ ds) f =
    let (f', b) = filter_decide f d in
    let (offered, served, total) = counters_all ds f' in
    let (one_offered, one_served, one_total) = counters_round f d in
    (
      omega (arith, offered, one_offered),
      omega (arith, served, one_served),
      omega (arith, total, one_total),
    )

-- The counters of a list add up: every item was offered, the served ones are those that are shown,
-- and an item that policy allows is either served or counted as capped.
pub filter_all-counters :
    (ds : List Decision) (principal : Option Principal) (e : Engine) (method : Str)
    → let (f', shown) = filter_all ds (new_list_filter principal e method) in
      (f'.offered ≡ length ds)
      × (f'.served ≡ how_many (λ b. b) shown)
      × (f'.served + f'.capped ≡ how_many (λ d. d.allowed) ds)
unfolding new_list_filter
filter_all-counters ds principal e method =
    omega (arith, counters_all ds (new_list_filter principal e method))
