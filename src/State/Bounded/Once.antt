-- ===== src/State/Bounded/Once.antt =====
-- internal/bounded/map.go: `LoadOrStore` and `Delete`, and the one home of a key.
use fold.Prelude.{
  ℕ, ℤ, not, ◌&&◌, Option, none, some, Str, str_eq, str_eq_iff, if◌then◌else◌, lookup, insert,
  erase, present, ◌≡◌, refl, inl, inr, arith, lookup-insert, lookup-erase, Option-cases, Bool-cases,
  leb, length,
}
use fold.State.Bounded.{
  Entry, Bounded, take_prev, load, rotate, store, or_store, load_or_store, delete,
}
use fold.State.Bounded.View.{view, OneHome, live_value, take_prev-result}

module _ {ℓ} {V : Type ℓ} where
  abbrev pub value_or : Option V → V → V
  value_or none d = d
  value_or (some v) d = v

  or_store-result :
      (key : Str) (value : V) (ttl : ℤ) (later : ℕ) (m : Bounded V) (held : Option V)
      → (or_store key value ttl later (m, held)).1 ≡ value_or held value
  or_store-result key value ttl later m none = refl
  or_store-result key value ttl later m (some v) = refl

  or_store-loaded :
      (key : Str) (value : V) (ttl : ℤ) (later : ℕ) (m : Bounded V) (held : Option V)
      → (or_store key value ttl later (m, held)).2 ≡ present held
  or_store-loaded key value ttl later m none = refl
  or_store-loaded key value ttl later m (some v) = refl

  -- `LoadOrStore` returns the live value when there is one and the given one otherwise, and says
  -- which of the two happened.
  pub load_or_store-view :
      (key : Str) (value : V) (ttl : ℤ) (now later : ℕ) (m : Bounded V)
      → ((load_or_store key value ttl now later m).1 ≡ value_or (view m now key) value)
        × ((load_or_store key value ttl now later m).2 ≡ present (view m now key))
  unfolding load_or_store view
  load_or_store-view key value ttl now later m =
      let (m', held) = take_prev key now m in
      let kept : held ≡ live_value (lookup key m.prev) now = take_prev-result key now m in
      let result = or_store-result key value ttl later m' held in
      let loaded = or_store-loaded key value ttl later m' held in
      (ground (arith, kept, result), ground (arith, kept, loaded))

  -- After a delete the key reads as absent at every time, and no other key changes.
  pub delete-view :
      (key : Str) (now : ℕ) (m : Bounded V) (k : Str)
      → view (delete key m) now k ≡ (if str_eq key k then none else view m now k)
  unfolding delete view
  delete-view key now m k =
      ground (arith, lookup-erase key k m.cur, lookup-erase key k m.prev, str_eq_iff key k)

  pub take_prev-OneHome :
      (key : Str) (now : ℕ) (m : Bounded V) → OneHome m → OneHome (take_prev key now m).0
  unfolding take_prev
  take_prev-OneHome key now m h k = elim (Option-cases (lookup key m.prev)) [
    | inl e ↦ ground (arith, h k)
    | inr (x, e) ↦ ground (arith, h k, lookup-insert key k x m.cur, lookup-erase key k m.prev)
  ]

  cur_erased-OneHome :
      (key : Str) (m : Bounded V) → OneHome m → OneHome (record m { cur = erase key m.cur })
  cur_erased-OneHome key m h k = ground (arith, h k, lookup-erase key k m.cur)

  pub load-OneHome : (key : Str) (now : ℕ) (m : Bounded V) → OneHome m → OneHome (load key now m).0
  unfolding load
  load-OneHome key now m h k = ground (
    arith,
    h k,
    take_prev-OneHome key now m h k,
    take_prev-OneHome key now (record m { cur = erase key m.cur }) (cur_erased-OneHome key m h) k,
  )

  write-OneHome :
      (key : Str) (e : Entry V) (m : Bounded V)
      → OneHome m
      → OneHome (record m { prev = erase key m.prev; cur = insert key e m.cur })
  write-OneHome key e m h k =
      ground (arith, h k, lookup-insert key k e m.cur, lookup-erase key k m.prev)

  rotate-OneHome : (key : Str) (m : Bounded V) → OneHome m → OneHome (rotate key m)
  unfolding rotate lookup
  rotate-OneHome key m h k =
      elim (Bool-cases (not (present (lookup key m.cur)) && leb m.limit (length m.cur))) [
        | inl e ↦ rw e refl
        | inr e ↦ rw e (h k)
      ]

  pub store-OneHome :
      (key : Str) (value : V) (ttl : ℤ) (now : ℕ) (m : Bounded V)
      → OneHome m
      → OneHome (store key value ttl now m)
  unfolding store
  store-OneHome key value ttl now m h = write-OneHome key _ (rotate key m) (rotate-OneHome key m h)
