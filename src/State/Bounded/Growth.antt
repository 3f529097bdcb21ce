-- ===== src/State/Bounded/Growth.antt =====
-- internal/bounded/map.go: how many records stay resident.
use fold.Prelude.{
  ℕ, zero, suc, ◌+◌, ◌≤◌, ◌<◌, ℤ, pos, true, false, not, ◌&&◌, none, some, Str, str_eq, str_eq_refl,
  Dict, List, [], ◌∷◌, ◌++◌, lookup, insert, erase, length, leb, present, ◌≡◌, refl, ap, ◌∙◌, subst,
  ◌≢◌, arith, lookup-insert, lookup-erase, length-insert,
}
use native.Mathlib.Decide.{ℕ_discrete}
use fold.State.Bounded.{Entry, Bounded, live, expiry, new_map, take_prev, load, rotate, store, len}

module _ {ℓ} {V : Type ℓ} where
  -- A store never grows a full live generation: it keeps within the limit what was within it.
  pub store-length :
      (key : Str) (value : V) (ttl : ℤ) (now : ℕ) (m : Bounded V)
      → 0 < m.limit
      → length m.cur ≤ m.limit
      → length (store key value ttl now m).cur ≤ m.limit
  unfolding store rotate insert lookup
  store-length key value ttl now m h k =
      ground (arith, length-insert key (record { value = value; expires = expiry ttl now }) m.cur)

-- A run of the map, at a time that never moves.
pub data Op : Type 0 where
  loads stores : Str → Op

unfoldable pub run : List Op → Bounded ℕ → Bounded ℕ
unfolding load store
run [] m = m
run (loads key ∷ ops) m = run ops (load key 0 m).0
run (stores key ∷ ops) m = run ops (store key 0 (pos 0) 0 m)

run-append : (ops later : List Op) (m : Bounded ℕ) → run (ops ++ later) m ≡ run later (run ops m)
unfolding run
run-append [] later m = refl
run-append (loads key ∷ ops) later m = run-append ops later (load key 0 m).0
run-append (stores key ∷ ops) later m = run-append ops later (store key 0 (pos 0) 0 m)

abbrev nth : ℕ → Str
nth i = i ∷ []

abbrev forever : Entry ℕ
forever = record { value = 0; expires = none }

nth_ne : (i j : ℕ) → i ≢ j → str_eq (nth i) (nth j) ≡ false
unfolding str_eq
nth_ne i j h = ground arith

-- The key `n` was stored last, the keys below `j` have moved back into the live generation, and the
-- others below `n` wait in the previous one.
record Filled (n j : ℕ) (m : Bounded ℕ) : Type 0 where
  limit_one : m.limit ≡ 1
  size : length m.cur ≡ suc j
  waits : (i : ℕ) → j ≤ i → i < n → lookup (nth i) m.prev ≡ some forever
  absent : (i : ℕ) → j ≤ i → i < n → lookup (nth i) m.cur ≡ none
  moved : (i : ℕ) → i < j → lookup (nth i) m.cur ≡ some forever
  newest : lookup (nth n) m.cur ≡ some forever
  unused : (i : ℕ) → n < i → lookup (nth i) m.cur ≡ none

abbrev promoted : ℕ → Bounded ℕ → Bounded ℕ
promoted j m = record m { prev = erase (nth j) m.prev; cur = insert (nth j) forever m.cur }

load-promoted :
    (j : ℕ) (m : Bounded ℕ)
    → lookup (nth j) m.cur ≡ none
    → lookup (nth j) m.prev ≡ some forever
    → (load (nth j) 0 m).0 ≡ promoted j m
unfolding load take_prev live
load-promoted j m h k = rw (h, load, k, take_prev) refl

cur_other :
    (i j : ℕ) (m : Bounded ℕ)
    → j ≢ i
    → lookup (nth i) (insert (nth j) forever m.cur) ≡ lookup (nth i) m.cur
cur_other i j m h = rw (lookup-insert (nth j) (nth i) forever m.cur, nth_ne j i h) refl

cur_same : (j : ℕ) (m : Bounded ℕ) → lookup (nth j) (insert (nth j) forever m.cur) ≡ some forever
cur_same j m = rw (lookup-insert (nth j) (nth j) forever m.cur, str_eq_refl (nth j)) refl

prev_other :
    (i j : ℕ) (d : Dict (Entry ℕ)) → j ≢ i → lookup (nth i) (erase (nth j) d) ≡ lookup (nth i) d
prev_other i j d h = rw (lookup-erase (nth j) (nth i) d, nth_ne j i h) refl

promote-Filled :
    (n j : ℕ) (m : Bounded ℕ) → j < n → Filled n j m → Filled n (suc j) (load (nth j) 0 m).0
promote-Filled n j m h f =
    rw (load-promoted j m (f.absent j (omega arith) h) (f.waits j (omega arith) h)) (record {
      limit_one = f.limit_one;
      size = rw (length-insert (nth j) forever m.cur, f.absent j (omega arith) h) (ap suc f.size);
      waits = λ i a b. prev_other i j m.prev (omega arith) ∙ f.waits i (omega arith) b;
      absent = λ i a b. cur_other i j m (omega arith) ∙ f.absent i (omega arith) b;
      moved = λ i a. moved_now i a;
      newest = cur_other n j m (omega arith) ∙ f.newest;
      unused = λ i a. cur_other i j m (omega arith) ∙ f.unused i a;
    })
  where
    moved_now : (i : ℕ) → i < suc j → lookup (nth i) (insert (nth j) forever m.cur) ≡ some forever
    moved_now i a = elim (ℕ_discrete j i) [
      | yes e ↦ rw e (cur_same i m)
      | no ne ↦ cur_other i j m ne ∙ f.moved i (omega arith)
    ]

abbrev emptied : Bounded ℕ → Bounded ℕ
emptied m = record m { prev = m.cur; cur = [] }

nothing : (i : ℕ) → lookup {V = Entry ℕ} (nth i) [] ≡ none
unfolding lookup
nothing i = refl

-- Storing a new key while the live generation is over its limit moves all of it aside.
turn-Filled :
    (n : ℕ) (m : Bounded ℕ) → Filled n n m → Filled (suc n) 0 (store (nth (suc n)) 0 (pos 0) 0 m)
unfolding store rotate insert
turn-Filled n m f = rw full (record {
  limit_one = f.limit_one;
  size = refl;
  waits = λ i a b. prev_other i (suc n) m.cur (omega arith) ∙ kept i b;
  absent = λ i a b. only_new i (omega arith);
  moved = λ i a. elim a [ ];
  newest = cur_same (suc n) (emptied m);
  unused = λ i a. only_new i (omega arith);
})
  where
    full : (not (present (lookup (nth (suc n)) m.cur)) && leb m.limit (length m.cur)) ≡ true
    full = ground (arith, f.unused (suc n) (omega arith), f.size, f.limit_one)

    kept : (i : ℕ) → i < suc n → lookup (nth i) m.cur ≡ some forever
    kept i b = elim (ℕ_discrete i n) [ yes e ↦ rw e f.newest | no ne ↦ f.moved i (omega arith) ]

    only_new : (i : ℕ) → suc n ≢ i → lookup (nth i) (insert (nth (suc n)) forever []) ≡ none
    only_new i ne = cur_other i (suc n) (emptied m) ne ∙ nothing i

-- One round: every key waiting is read, from `nth j` on.
abbrev read_from : ℕ → ℕ → List Op
read_from j zero = []
read_from j (suc k) = loads (nth j) ∷ read_from (suc j) k

read_from-Filled :
    (n j k : ℕ) (m : Bounded ℕ) → j + k ≡ n → Filled n j m → Filled n n (run (read_from j k) m)
unfolding run
read_from-Filled n j zero m h f = let e : j ≡ n = omega arith in subst (λ i. Filled n i m) e f
read_from-Filled n j (suc k) m h f =
    read_from-Filled n (suc j) k (load (nth j) 0 m).0 (omega arith)
      (promote-Filled n j m (omega arith) f)

rounds : ℕ → List Op
rounds zero = stores (nth 0) ∷ []
rounds (suc n) = rounds n ++ (stores (nth (suc n)) ∷ read_from 0 (suc n))

start-Filled : Filled 0 0 (run (rounds 0) (new_map 1))
unfolding rounds run store rotate insert lookup new_map erase str_eq
start-Filled = record {
  limit_one = refl;
  size = refl;
  waits = λ i a b. elim b [ ];
  absent = λ i a b. elim b [ ];
  moved = λ i a. elim a [ ];
  newest = refl;
  unused = λ i a. rw (nth_ne 0 i (omega arith)) refl;
}

rounds-Filled : (n : ℕ) → Filled n n (run (rounds n) (new_map 1))
unfolding rounds run store
rounds-Filled zero = start-Filled
rounds-Filled (suc n) =
    rw (run-append (rounds n) (stores (nth (suc n)) ∷ read_from 0 (suc n)) (new_map 1))
      (read_from-Filled (suc n) 0 (suc n) _ (omega arith) (turn-Filled n _ (rounds-Filled n)))

-- The map is not bounded by its limit: a hit in the previous generation moves into the live one
-- without a look at its size, so with a limit of one there is, for every n, a run of stores and
-- loads after which more than n records are resident.
pub len_unbounded : (n : ℕ) → (ops : List Op) × (n < len (run ops (new_map 1)))
unfolding len
len_unbounded n = (rounds n, omega (arith, (rounds-Filled n).size))
