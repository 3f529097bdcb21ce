-- ===== src/Audit/Delivery/Placed.antt =====
-- audit/audit.go: a batch is accounted for, whatever happens to it.
use fold.Prelude.{
  ℕ, zero, suc, ◌+◌, ◌*◌, ◌≤◌, take, List, [], ◌∷◌, ◌++◌, length, Option, none, some, Str, ◌≡◌,
  refl, arith,
}
use fold.Audit.{Event}
use fold.Audit.Delivery.{
  RetryPolicy, Report, delivered, retried, dead_lettered, dropped, Line, Outside, write_dead,
  abandon_to, abandon, attempts, deliver_body, deliver, panic_of, recovered, deliver_safe,
}

-- How many events the reports place: delivered, written to the dead-letter file, or dropped.
unfoldable pub placed : List Report → ℕ
placed [] = 0
placed (delivered n ∷ rs) = n + placed rs
placed (retried n ∷ rs) = placed rs
placed (dead_lettered n ∷ rs) = n + placed rs
placed (dropped n ∷ rs) = n + placed rs

pub placed-append : (rs ss : List Report) → placed (rs ++ ss) ≡ placed rs + placed ss
unfolding placed
placed-append [] ss = omega arith
placed-append (delivered n ∷ rs) ss = omega (arith, placed-append rs ss)
placed-append (retried n ∷ rs) ss = placed-append rs ss
placed-append (dead_lettered n ∷ rs) ss = omega (arith, placed-append rs ss)
placed-append (dropped n ∷ rs) ss = omega (arith, placed-append rs ss)

placed-write_dead :
    (line : Event → Line) (batch : List Event) → placed (write_dead line batch) ≡ length batch
unfolding placed write_dead
placed-write_dead line [] = refl
placed-write_dead line (e ∷ batch) = ground (arith, placed-write_dead line batch)

placed-abandon_to :
    (dead : Option (Event → Line)) (batch : List Event)
    → placed (abandon_to dead batch) ≡ length batch
unfolding placed
placed-abandon_to none batch = omega arith
placed-abandon_to (some line) batch = placed-write_dead line batch

pub placed-abandon : (o : Outside) (batch : List Event) → placed (abandon o batch) ≡ length batch
unfolding abandon placed
placed-abandon o [] = refl
placed-abandon o (e ∷ batch) = placed-abandon_to o.dead_letter (e ∷ batch)

placed-attempts :
    (o : Outside) (batch : List Event) (body : Str) (left attempt : ℕ)
    → placed (attempts o batch body left attempt) ≡ length batch
unfolding attempts placed
placed-attempts o batch body zero attempt = placed-abandon o batch
placed-attempts o batch body (suc left) attempt =
    ground (arith, placed-abandon o batch, placed-attempts o batch body left (attempt + 1))

placed-deliver_body :
    (p : RetryPolicy) (o : Outside) (batch : List Event) (body : Option Str)
    → placed (deliver_body p o batch body) ≡ length batch
unfolding deliver_body placed
placed-deliver_body p o batch none = omega arith
placed-deliver_body p o batch (some body) = placed-attempts o batch body p.max_attempts 1

placed-take : (made : ℕ) (rs : List Report) → placed (take made rs) ≤ placed rs
unfolding placed
placed-take zero rs = omega arith
placed-take (suc made) [] = omega arith
placed-take (suc made) (delivered n ∷ rs) = omega (arith, placed-take made rs)
placed-take (suc made) (retried n ∷ rs) = placed-take made rs
placed-take (suc made) (dead_lettered n ∷ rs) = omega (arith, placed-take made rs)
placed-take (suc made) (dropped n ∷ rs) = omega (arith, placed-take made rs)

placed-recovered :
    (panics : Option ℕ) (batch : List Event) (rs : List Report)
    → placed rs ≡ length batch
    → (length batch ≤ placed (recovered panics batch rs))
      × (placed (recovered panics batch rs) ≤ (1 + panic_of panics) * length batch)
unfolding placed
placed-recovered none batch rs h = (omega arith, omega arith)
placed-recovered (some made) batch rs h =
    let a = placed-append (take made rs) (dropped (length batch) ∷ []) in
    let b = placed-take made rs in (omega arith, omega arith)

-- Whatever the receiver answers and whenever the sink closes: each event of a batch is counted once,
-- as delivered, as written to the dead-letter file, or as dropped. A panic of the delivery, at any
-- point, leaves each event counted, and adds at most one more count for each.
pub placed-deliver_safe :
    (p : RetryPolicy) (o : Outside) (batch : List Event)
    → (length batch ≤ placed (deliver_safe p o batch))
      × (placed (deliver_safe p o batch) ≤ (1 + panic_of o.panics) * length batch)
unfolding deliver_safe deliver
placed-deliver_safe p o batch =
    placed-recovered o.panics batch (deliver_body p o batch (o.encode batch))
      (placed-deliver_body p o batch (o.encode batch))
