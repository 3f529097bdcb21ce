-- ===== src/State/Bounded/View.antt =====
-- What a caller of internal/bounded/map.go can read: the live value of a key, in either generation.
use fold.Prelude.{
  ℕ, ℤ, pos, true, false, not, ◌&&◌, Option, none, some, Str, str_eq, str_eq_iff, lookup, insert,
  erase, [], length, leb, present, ◌≡◌, refl, sym, ◌∙◌, sym, ◌∙◌, ◌≢◌, inl, inr, arith,
  lookup-insert, lookup-erase, if◌then◌else◌, Option-cases, Bool-cases,
}
use fold.State.Bounded.{Entry, Bounded, live, take_prev, load, expiry, rotate, store}

module _ {ℓ} {V : Type ℓ} where
  abbrev pub live_value : Option (Entry V) → ℕ → Option V
  live_value none now = none
  live_value (some e) now = if live e now then some e.value else none

  abbrev pub or_else : Option V → Option V → Option V
  or_else none b = b
  or_else (some a) b = some a

  unfoldable pub view : Bounded V → ℕ → Str → Option V
  view m now k = or_else (live_value (lookup k m.cur) now) (live_value (lookup k m.prev) now)

  -- No key stands in both generations.
  abbrev pub OneHome : Bounded V → Type 0
  OneHome m = (k : Str) → (present (lookup k m.cur) && present (lookup k m.prev)) ≡ false

  pub take_prev-result :
      (key : Str) (now : ℕ) (m : Bounded V)
      → (take_prev key now m).1 ≡ live_value (lookup key m.prev) now
  unfolding take_prev
  take_prev-result key now m = ground arith

  load-result : (key : Str) (now : ℕ) (m : Bounded V) → (load key now m).1 ≡ view m now key
  unfolding load view
  load-result key now m = ground (
    arith,
    take_prev-result key now m,
    take_prev-result key now (record m { cur = erase key m.cur }),
  )

  take_prev-view :
      (key : Str) (now : ℕ) (m : Bounded V) (k : Str)
      → live_value (lookup key m.cur) now ≡ none
      → view (take_prev key now m).0 now k ≡ view m now k
  unfolding take_prev view
  take_prev-view key now m k h = elim (Option-cases (lookup key m.prev)) [
    | inl e ↦ ground arith
    | inr (x, e) ↦
        ground (arith, lookup-insert key k x m.cur, lookup-erase key k m.prev, str_eq_iff key k)
  ]

  -- Dropping a stale entry from the live generation shows what was behind it only under its key.
  erase-view :
      (key : Str) (now : ℕ) (m : Bounded V) (k : Str)
      → live_value (lookup key m.cur) now ≡ none
      → view (record m { cur = erase key m.cur }) now k ≡ view m now k
  unfolding view
  erase-view key now m k h = ground (arith, lookup-erase key k m.cur, str_eq_iff key k)

  load-keeps_view :
      (key : Str) (now : ℕ) (m : Bounded V) (k : Str) → view (load key now m).0 now k ≡ view m now k
  unfolding load
  load-keeps_view key now m k = elim (Option-cases (lookup key m.cur)) [
    | inl e ↦ ground (arith, take_prev-view key now m k)
    | inr (x, e) ↦
        let m' = record m { cur = erase key m.cur } in
        ground (
          arith,
          take_prev-view key now m' k,
          erase-view key now m k,
          lookup-erase key key m.cur,
          str_eq_iff key key,
        )
  ]

  -- `Load` returns the live value of the key and changes nothing that can be read at that time:
  -- what it moves between the generations, and what it drops, no reader sees.
  pub load-view :
      (key : Str) (now : ℕ) (m : Bounded V) (k : Str)
      → ((load key now m).1 ≡ view m now key) × (view (load key now m).0 now k ≡ view m now k)
  load-view key now m k = (load-result key now m, load-keeps_view key now m k)

  expiry-live :
      (v : V) (ttl : ℤ) (now : ℕ) → live (record { value = v; expires = expiry ttl now }) now ≡ true
  unfolding live expiry
  expiry-live v (pos n) now = ground arith
  expiry-live v (ℤ.negsuc n) now = refl

  abbrev turned : Bounded V → Bounded V
  turned m = record m { prev = m.cur; cur = [] }

  -- What a store reads like, given the generations that it writes into.
  abbrev written : Str → Entry V → Bounded V → Bounded V
  written key e m = record m { prev = erase key m.prev; cur = insert key e m.cur }

  written_self :
      (key : Str) (e : Entry V) (m : Bounded V) (now : ℕ)
      → live e now ≡ true
      → view (written key e m) now key ≡ some e.value
  unfolding view
  written_self key e m now h = ground (arith, lookup-insert key key e m.cur, str_eq_iff key key)

  written-ne :
      (key : Str) (e : Entry V) (m : Bounded V) (now : ℕ) (k : Str)
      → key ≢ k
      → view (written key e m) now k ≡ view m now k
  unfolding view
  written-ne key e m now k h =
      ground (arith, lookup-insert key k e m.cur, lookup-erase key k m.prev, str_eq_iff key k)

  pub turned-view :
      (m : Bounded V) (now : ℕ) (k : Str) → view (turned m) now k ≡ live_value (lookup k m.cur) now
  unfolding view lookup
  turned-view m now k = refl

  -- What every key reads as after a store: the key has its new value; every other key is as it was,
  -- unless the live generation was full and had no such key, for then only what was live in that
  -- generation stays.
  pub store-view :
      (key : Str) (value : V) (ttl : ℤ) (now : ℕ) (m : Bounded V) (k : Str)
      → view (store key value ttl now m) now k ≡ (
          if str_eq key k
          then some value
          else if not (present (lookup key m.cur)) && leb m.limit (length m.cur)
          then live_value (lookup k m.cur) now
          else view m now k)
  unfolding store rotate
  store-view key value ttl now m k = elim (Bool-cases (str_eq key k)) [
    | inl same ↦
        rw (same, sym ((str_eq_iff key k).0 same)) (written_self key e (rotate key m) now fresh)
    | inr other ↦
        elim (Bool-cases (not (present (lookup key m.cur)) && leb m.limit (length m.cur))) [
          | inl full ↦
              rw (other, full)
                (written-ne key e (turned m) now k (apart other) ∙ turned-view m now k)
          | inr room ↦ rw (other, room) (written-ne key e m now k (apart other))
        ]
  ]
    where
      e : Entry V
      e = record { value = value; expires = expiry ttl now }

      fresh : live e now ≡ true
      fresh = expiry-live value ttl now

      apart : str_eq key k ≡ false → key ≢ k
      apart h same = ground (arith, str_eq_iff key k)
