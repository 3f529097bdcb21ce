-- ===== src/State/Bounded/Run.antt =====
-- internal/bounded/map.go: any sequence of the four operations.
use fold.Prelude.{ℕ, ℤ, Str, List, [], ◌∷◌, lookup, refl, arith, lookup-erase, Option, none, some}
use fold.State.Bounded.{Bounded, new_map, take_prev, load, store, or_store, load_or_store, delete}
use fold.State.Bounded.View.{OneHome}
use fold.State.Bounded.Once.{take_prev-OneHome, load-OneHome, store-OneHome}

pub data Call {ℓ} (V : Type ℓ) : Type ℓ where
  loads deletes : Str → ℕ → Call V
  stores : Str → V → ℤ → ℕ → Call V
  load_or_stores : Str → V → ℤ → ℕ → ℕ → Call V

module _ {ℓ} {V : Type ℓ} where
  pub after : Bounded V → Call V → Bounded V
  unfolding load store load_or_store delete
  after m (loads key now) = (load key now m).0
  after m (deletes key now) = delete key m
  after m (stores key value ttl now) = store key value ttl now m
  after m (load_or_stores key value ttl now later) = (load_or_store key value ttl now later m).0

  pub run : Bounded V → List (Call V) → Bounded V
  unfolding after
  run m [] = m
  run m (c ∷ calls) = run (after m c) calls

  or_store-OneHome :
      (key : Str) (value : V) (ttl : ℤ) (later : ℕ) (m : Bounded V) (held : Option V)
      → OneHome m
      → OneHome (or_store key value ttl later (m, held)).0
  or_store-OneHome key value ttl later m none h = store-OneHome key value ttl later m h
  or_store-OneHome key value ttl later m (some v) h = h

  load_or_store-OneHome :
      (key : Str) (value : V) (ttl : ℤ) (now later : ℕ) (m : Bounded V)
      → OneHome m
      → OneHome (load_or_store key value ttl now later m).0
  unfolding load_or_store
  load_or_store-OneHome key value ttl now later m h k =
      let (m', held) = take_prev key now m in
      let missed = or_store-OneHome key value ttl later m' held (take_prev-OneHome key now m h) k in
      ground (arith, h k, missed)

  delete-OneHome : (key : Str) (m : Bounded V) → OneHome m → OneHome (delete key m)
  unfolding delete
  delete-OneHome key m h k =
      ground (arith, h k, lookup-erase key k m.cur, lookup-erase key k m.prev)

  after-OneHome : (m : Bounded V) (c : Call V) → OneHome m → OneHome (after m c)
  unfolding after
  after-OneHome m (loads key now) h = load-OneHome key now m h
  after-OneHome m (deletes key now) h = delete-OneHome key m h
  after-OneHome m (stores key value ttl now) h = store-OneHome key value ttl now m h
  after-OneHome m (load_or_stores key value ttl now later) h =
      load_or_store-OneHome key value ttl now later m h

  from-OneHome : (calls : List (Call V)) (m : Bounded V) → OneHome m → OneHome (run m calls)
  unfolding run
  from-OneHome [] m h = h
  from-OneHome (c ∷ calls) m h = from-OneHome calls (after m c) (after-OneHome m c h)

  -- After any sequence of operations on a new map no key stands in both generations.
  pub run-OneHome : (limit : ℕ) (calls : List (Call V)) → OneHome (run (new_map limit) calls)
  unfolding new_map
  run-OneHome limit calls = from-OneHome calls (new_map limit) (λ k. unfold lookup in refl)
