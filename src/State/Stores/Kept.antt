-- ===== src/State/Stores/Kept.antt =====
-- internal/state/state.go: how long a record of a single use is kept.
use fold.Prelude.{
  ℕ, suc, ◌<◌, ◌≤◌, ℤ, true, false, not, ◌&&◌, Option, none, some, Str, str_eq, str_eq_iff, lookup,
  insert, lookup-insert, lookup-erase, leb, length, length-insert, present, ◌≡◌, refl, ◌∙◌, ◌⊎◌,
  inl, inr, arith, Bool-cases, Option-cases,
}
use fold.State.Bounded.{
  Bounded, Entry, live, expiry, take_prev, rotate, store, or_store, load_or_store,
}
use fold.State.Bounded.View.{view, live_value}
use fold.State.Bounded.Once.{load_or_store-view}
use fold.State.Stores.{try_once}

-- A recorder says fresh exactly when it holds no live record of the key.
pub try_once-view :
    (key : Str) (ttl : ℤ) (now later : ℕ) (m : Bounded (Unit {0}))
    → (try_once key ttl now later m).1 ≡ not (present (view m now key))
unfolding try_once
try_once-view key ttl now later m = ground (arith, load_or_store-view key tt ttl now later m)

abbrev pub Once : Type 0
Once = Bounded (Unit {0})

abbrev pub used : ℕ → Entry (Unit {0})
used until = record { value = tt; expires = some until }

-- The record is in the live generation, or it waits in the previous one while the live one has
-- taken in no more than `n` records.
abbrev pub Kept : Str → ℕ → ℕ → Once → Type 0
Kept key until n m =
    (lookup key m.cur ≡ some (used until))
    ⊎ ((lookup key m.prev ≡ some (used until)) × (length m.cur ≤ n))

pub Kept-view :
    (key : Str) (until n at : ℕ) (m : Once)
    → Kept key until n m
    → at < until
    → present (view m at key) ≡ true
unfolding view live
Kept-view key until n at m (inl a) h = ground arith
Kept-view key until n at m (inr (b, l)) h = ground arith

-- A call either leaves the map alone, or looks into the previous generation and may store.
load_or_store_cases :
    (k : Str) (ttl : ℤ) (now later : ℕ) (m : Once)
    → ((load_or_store k tt ttl now later m).0 ≡ m)
      ⊎ (((load_or_store k tt ttl now later m).0 ≡ (or_store k tt ttl later (take_prev k now m)).0)
          × (live_value (lookup k m.cur) now ≡ none))
unfolding load_or_store live
load_or_store_cases k ttl now later m = elim (Option-cases (lookup k m.cur)) [
  | inl e ↦ inr (ground arith, ground arith)
  | inr (x, e) ↦ elim (Bool-cases (live x now)) [
    | inl f ↦ inl (ground arith)
    | inr f ↦ inr (ground arith, ground arith)
  ]
]

store-limit : (k : Str) (ttl : ℤ) (now : ℕ) (m : Once) → (store k tt ttl now m).limit ≡ m.limit
unfolding store rotate
store-limit k ttl now m = ground arith

take_prev-limit : (k : Str) (now : ℕ) (m : Once) → (take_prev k now m).0.limit ≡ m.limit
unfolding take_prev
take_prev-limit k now m = ground arith

or_store-limit :
    (k : Str) (ttl : ℤ) (later : ℕ) (m : Once) (held : Option (Unit {0}))
    → (or_store k tt ttl later (m, held)).0.limit ≡ m.limit
or_store-limit k ttl later m none = store-limit k ttl later m
or_store-limit k ttl later m (some v) = refl

module _ (key k : Str) (until n now : ℕ) (early : now < until) where
  same_key : str_eq k key ≡ true → k ≡ key
  same_key = (str_eq_iff k key).0

  -- A record that is live in the live generation is not one that the call misses there.
  not_this :
      (m : Once)
      → lookup key m.cur ≡ some (used until)
      → live_value (lookup k m.cur) now ≡ none
      → str_eq k key ≡ false
  unfolding live
  not_this m a h = elim (Bool-cases (str_eq k key)) [
    | inl e ↦ absurd (ground (arith, same_key e))
    | inr e ↦ e
  ]

  -- A look into the previous generation that finds nothing leaves the record where it is.
  take_prev_missed :
      (m : Once)
      → Kept key until n m
      → live_value (lookup k m.cur) now ≡ none
      → (take_prev k now m).1 ≡ none
      → Kept key until n (take_prev k now m).0 × (str_eq k key ≡ false)
  unfolding take_prev live
  take_prev_missed m (inl a) h r = (inl (ground (arith, a)), not_this m a h)
  take_prev_missed m (inr (b, l)) h r =
      let other : str_eq k key ≡ false = elim (Bool-cases (str_eq k key)) [
        | inl e ↦ absurd (ground (arith, same_key e))
        | inr e ↦ e
      ] in
      (inr (ground (arith, other, lookup-erase k key m.prev), ground arith), other)

  -- One that finds something brings it into the live generation.
  take_prev_hit :
      (m : Once) {v : Unit {0}}
      → Kept key until n m
      → live_value (lookup k m.cur) now ≡ none
      → (take_prev k now m).1 ≡ some v
      → Kept key until (suc n) (take_prev k now m).0
  unfolding take_prev live
  take_prev_hit m (inl a) h r = elim (Option-cases (lookup k m.prev)) [
    | inl e ↦ absurd (ground arith)
    | inr (x, e) ↦ inl (ground (arith, not_this m a h, lookup-insert k key x m.cur))
  ]
  take_prev_hit m (inr (b, l)) h r = elim (Option-cases (lookup k m.prev)) [
    | inl e ↦ absurd (ground arith)
    | inr (x, e) ↦ elim (Bool-cases (str_eq k key)) [
      | inl f ↦ inl (ground (arith, same_key f, f, lookup-insert k key x m.cur))
      | inr f ↦
          inr
            (ground (arith, f, lookup-erase k key m.prev), ground (arith, length-insert k x m.cur))
    ]
  ]

  -- A store of another key turns the generations at most once while the record waits.
  store-Kept :
      (ttl : ℤ) (later : ℕ) (m : Once)
      → Kept key until n m
      → str_eq k key ≡ false
      → n < m.limit
      → Kept key until (suc n) (store k tt ttl later m)
  unfolding store rotate lookup insert
  store-Kept ttl later m (inl a) other small =
      let e : Entry (Unit {0}) = record { value = tt; expires = expiry ttl later } in
      elim (Bool-cases (not (present (lookup k m.cur)) && leb m.limit (length m.cur))) [
        | inl full ↦ rw full (inr (ground (arith, other, lookup-erase k key m.cur), omega arith))
        | inr room ↦ rw room (inl (ground (arith, other, lookup-insert k key e m.cur)))
      ]
  store-Kept ttl later m (inr (b, l)) other small =
      let e : Entry (Unit {0}) = record { value = tt; expires = expiry ttl later } in
      elim (Bool-cases (not (present (lookup k m.cur)) && leb m.limit (length m.cur))) [
        | inl full ↦ absurd (ground arith)
        | inr room ↦ rw room (
            inr (
              ground (arith, other, lookup-erase k key m.prev),
              ground (arith, length-insert k e m.cur),
            ))
      ]

  miss-Kept :
      (ttl : ℤ) (later : ℕ) (m : Once)
      → Kept key until n m
      → live_value (lookup k m.cur) now ≡ none
      → n < m.limit
      → Kept key until (suc n) (or_store k tt ttl later (take_prev k now m)).0
  miss-Kept ttl later m kept h small =
      let same_limit = take_prev-limit k now m in
      elim (Option-cases (take_prev k now m).1) [
        | inl r ↦
            let (kept', other) = take_prev_missed m kept h r in
            rw r
              (store-Kept ttl later (take_prev k now m).0 kept' other (omega (arith, same_limit)))
        | inr (v, r) ↦ rw r (take_prev_hit m kept h r)
      ]

  pub try_once-Kept :
      (ttl : ℤ) (later : ℕ) (m : Once)
      → Kept key until n m
      → n < m.limit
      → Kept key until (suc n) (try_once k ttl now later m).0
  unfolding try_once
  try_once-Kept ttl later m kept small = elim (load_or_store_cases k ttl now later m) [
    | inl same ↦ rw same (later_on kept)
    | inr (missed, h) ↦ rw missed (miss-Kept ttl later m kept h small)
  ]
    where
      later_on : Kept key until n m → Kept key until (suc n) m
      later_on (inl a) = inl a
      later_on (inr (b, l)) = inr (b, omega arith)

pub try_once-limit :
    (k : Str) (ttl : ℤ) (now later : ℕ) (m : Once) → (try_once k ttl now later m).0.limit ≡ m.limit
unfolding try_once
try_once-limit k ttl now later m = elim (load_or_store_cases k ttl now later m) [
  | inl same ↦ rw same refl
  | inr (missed, h) ↦ rw missed (
      or_store-limit k ttl later (take_prev k now m).0 (take_prev k now m).1
      ∙ take_prev-limit k now m)
]
