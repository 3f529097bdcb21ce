-- ===== src/State/Stores.antt =====
-- internal/state/state.go: the in-process record store and the single-use recorder, over the bounded
-- map. The clock of each operation is an argument.
pub mod Kept
pub mod SingleUse
use fold.Prelude.{ℕ, ℤ, Bool, not, List, [], ◌∷◌, Option, none, some, Str, Dict, insert}
use fold.State.Bounded.{Bounded, new_map, load, store, load_or_store, delete}

abbrev pub max_store_entries : ℕ
max_store_entries = 50_000

abbrev pub max_once_records : ℕ
max_once_records = 100_000

-- `MemStore` holds bytes.
unfoldable pub new_mem_store : Bounded Str
unfolding new_map
new_mem_store = new_map max_store_entries

unfoldable pub get : Str → ℕ → Bounded Str → Bounded Str × Option Str
unfolding load
get key now m = load key now m

abbrev pub noted : Str → Option Str → Dict Str → Dict Str
noted key none out = out
noted key (some v) out = insert key v out

-- Each key is read at its own time.
unfoldable pub get_many : List (Str × ℕ) → Bounded Str → Dict Str → Bounded Str × Dict Str
unfolding get
get_many [] m out = (m, out)
get_many ((key, now) ∷ keys) m out =
    let (m', found) = get key now m in get_many keys m' (noted key found out)

unfoldable pub set : Str → Str → ℤ → ℕ → Bounded Str → Bounded Str
unfolding store
set key value ttl now m = store key value ttl now m

unfoldable pub set_many : List (Str × Str × ℕ) → ℤ → Bounded Str → Bounded Str
unfolding set
set_many [] ttl m = m
set_many ((key, value, now) ∷ entries) ttl m = set_many entries ttl (set key value ttl now m)

unfoldable pub remove : Str → Bounded Str → Bounded Str
unfolding delete
remove key m = delete key m

-- `MemOnce` holds nothing under its keys.
unfoldable pub new_mem_once : Bounded (Unit {0})
unfolding new_map
new_mem_once = new_map max_once_records

unfoldable pub try_once : Str → ℤ → ℕ → ℕ → Bounded (Unit {0}) → Bounded (Unit {0}) × Bool
unfolding load_or_store
try_once key ttl now later m =
    let (m', value, loaded) = load_or_store key tt ttl now later m in (m', not loaded)
