-- ===== src/State/Stores/SingleUse.antt =====
-- internal/state/state.go: a key is fresh once.
use fold.Prelude.{
  ℕ, suc, ◌+◌, ◌<◌, ◌≤◌, ℤ, pos, true, false, List, [], ◌∷◌, All, Option, none, some, Str,
  str_eq_iff, lookup, lookup-insert, leb, length, ◌≡◌, refl, subst, inl, arith,
}
use fold.State.Bounded.{Bounded, expiry, take_prev, rotate, store, or_store, load_or_store}
use fold.State.Stores.{try_once}
use fold.State.Stores.Kept.{
  Once, used, Kept, Kept-view, try_once-view, try_once-limit, try_once-Kept,
}

-- A call of the recorder: its key, its lifetime, and the two readings of the clock.
pub record Try : Type 0 where
  pub key : Str
  pub ttl : ℤ
  pub now : ℕ
  pub later : ℕ

pub after_tries : List Try → Bounded (Unit {0}) → Bounded (Unit {0})
unfolding try_once
after_tries [] m = m
after_tries (c ∷ calls) m = after_tries calls (try_once c.key c.ttl c.now c.later m).0

after_tries-Kept :
    (key : Str) (until n : ℕ) (calls : List Try) (m : Once)
    → Kept key until n m
    → n + length calls ≤ m.limit
    → All (λ c. c.now < until) calls
    → Kept key until (n + length calls) (after_tries calls m)
unfolding after_tries
after_tries-Kept key until n [] m kept small early =
    subst (λ j. Kept key until j m) (omega arith) kept
after_tries-Kept key until n (c ∷ calls) m kept small early =
    let m' = (try_once c.key c.ttl c.now c.later m).0 in
    let same_limit = try_once-limit c.key c.ttl c.now c.later m in
    let step = try_once-Kept key c.key until n c.now early.0 c.ttl c.later m kept (omega arith) in
    subst (λ j. Kept key until j (after_tries calls m')) (omega arith)
      (after_tries-Kept key until (suc n) calls m' step (omega (arith, same_limit)) early.1)

store_used :
    (key : Str) (ttl later : ℕ) (m : Once)
    → 0 < ttl
    → lookup key (store key tt (pos ttl) later m).cur ≡ some (used (later + ttl))
unfolding store expiry
store_used key ttl later m h =
    let positive : leb 1 ttl ≡ true = ground arith in
    rw positive (
      ground
        (arith, lookup-insert key key (used (later + ttl)) (rotate key m).cur, str_eq_iff key key))

or_store_used :
    (key : Str) (ttl later : ℕ) (m : Once) (held : Option (Unit {0}))
    → 0 < ttl
    → (or_store key tt (pos ttl) later (m, held)).2 ≡ false
    → lookup key (or_store key tt (pos ttl) later (m, held)).0.cur ≡ some (used (later + ttl))
or_store_used key ttl later m none h r = store_used key ttl later m h
or_store_used key ttl later m (some v) h r = absurd (ground arith)

-- A call that says fresh has stored the record.
fresh-Kept :
    (key : Str) (ttl now later : ℕ) (m : Once)
    → 0 < ttl
    → (try_once key (pos ttl) now later m).1 ≡ true
    → Kept key (later + ttl) 0 (try_once key (pos ttl) now later m).0
unfolding try_once load_or_store
fresh-Kept key ttl now later m h fresh =
    let (m', held) = take_prev key now m in
    inl (ground (arith, or_store_used key ttl later m' held h))

-- A key is fresh once: after a call that said so, and any further calls with any keys, no more of
-- them than the map has room for, the same key is refused as long as its record has not expired.
pub after_tries-try_once :
    (key : Str) (ttl now later : ℕ) (m : Bounded (Unit {0})) (calls : List Try) (again : ℤ)
    (at at_later : ℕ)
    → 0 < ttl
    → (try_once key (pos ttl) now later m).1 ≡ true
    → length calls ≤ m.limit
    → All (λ c. c.now < later + ttl) calls
    → at < later + ttl
    → (try_once key again at at_later (after_tries calls (try_once key (pos ttl) now later m).0)).1
      ≡ false
after_tries-try_once key ttl now later m calls again at at_later h fresh small early k =
    let m' = (try_once key (pos ttl) now later m).0 in
    let same_limit = try_once-limit key (pos ttl) now later m in
    let kept =
      after_tries-Kept key (later + ttl) 0 calls m' (fresh-Kept key ttl now later m h fresh)
        (omega (arith, same_limit)) early in
    let seen = Kept-view key (later + ttl) (0 + length calls) at (after_tries calls m') kept k in
    rw (try_once-view key again at at_later (after_tries calls m'), seen) refl
