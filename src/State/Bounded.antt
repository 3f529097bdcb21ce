-- ===== src/State/Bounded.antt =====
-- internal/bounded/map.go: the generational map with expiry. The clock is an argument of each
-- operation that reads it. `expires` is `none` for the zero time, which never expires.
pub mod View
pub mod Once
pub mod Growth
pub mod Run
use fold.Prelude.{
  ℕ, ◌+◌, ℤ, is_positive, pos_part, Bool, true, false, not, ◌&&◌, Option, none, some, Str, Dict,
  lookup, insert, erase, [], length, ltb, leb, present, if◌then◌else◌,
}

pub record Entry {ℓ} (V : Type ℓ) : Type ℓ where
  pub value : V
  pub expires : Option ℕ

-- `Map`; `max` is the limit of one generation.
pub record Bounded {ℓ} (V : Type ℓ) : Type ℓ where
  pub limit : ℕ
  pub cur : Dict (Entry V)
  pub prev : Dict (Entry V)

-- `time.Time{}` unless the ttl is positive.
unfoldable pub expiry : ℤ → ℕ → Option ℕ
expiry ttl now = if is_positive ttl then some (now + pos_part ttl) else none

module _ {ℓ} {V : Type ℓ} where
  unfoldable pub live : Entry V → ℕ → Bool
  live e now = elim e.expires [ none ↦ true | some t ↦ ltb now t ]

  unfoldable pub new_map : ℕ → Bounded V
  new_map limit = record { limit = limit; cur = []; prev = [] }

  -- The entry under the key, if it is live.
  abbrev pub live_entry : Option (Entry V) → ℕ → Bool
  live_entry none now = false
  live_entry (some e) now = live e now

  -- The part of `Load` and `LoadOrStore` that looks into the previous generation: a hit moves to
  -- the live one, and a stale entry is dropped.
  unfoldable pub take_prev : Str → ℕ → Bounded V → Bounded V × Option V
  take_prev key now m = elim (lookup key m.prev) [
    | none ↦ (m, none)
    | some e ↦
        let dropped = erase key m.prev in
        if live e now
        then (record m { prev = dropped; cur = insert key e m.cur }, some e.value)
        else (record m { prev = dropped }, none)
  ]

  unfoldable pub load : Str → ℕ → Bounded V → Bounded V × Option V
  unfolding take_prev live
  load key now m = elim (lookup key m.cur) [
    | none ↦ take_prev key now m
    | some e ↦
        if live e now
        then (m, some e.value)
        else take_prev key now (record m { cur = erase key m.cur })
  ]

  -- `storeLocked` up to its delete: the generations turn when the live one is full.
  unfoldable pub rotate : Str → Bounded V → Bounded V
  rotate key m =
      if not (present (lookup key m.cur)) && leb m.limit (length m.cur)
      then record m { prev = m.cur; cur = [] }
      else m

  unfoldable pub store : Str → V → ℤ → ℕ → Bounded V → Bounded V
  unfolding rotate expiry
  store key value ttl now m =
      let turned = rotate key m in
      record turned {
        prev = erase key turned.prev;
        cur = insert key (record { value = value; expires = expiry ttl now }) turned.cur;
      }

  -- `storeLocked` reads the clock again.
  abbrev pub or_store : Str → V → ℤ → ℕ → Bounded V × Option V → Bounded V × V × Bool
  or_store key value ttl later (m, none) = (store key value ttl later m, value, false)
  or_store key value ttl later (m, some v) = (m, v, true)

  unfoldable pub load_or_store : Str → V → ℤ → ℕ → ℕ → Bounded V → Bounded V × V × Bool
  unfolding take_prev live store
  load_or_store key value ttl now later m =
      let miss = or_store key value ttl later (take_prev key now m) in
      elim (lookup key m.cur) [
        | none ↦ miss
        | some e ↦ if live e now then (m, e.value, true) else miss
      ]

  unfoldable pub delete : Str → Bounded V → Bounded V
  delete key m = record m { cur = erase key m.cur; prev = erase key m.prev }

  unfoldable pub len : Bounded V → ℕ
  len m = length m.cur + length m.prev
