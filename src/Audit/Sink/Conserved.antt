-- ===== src/Audit/Sink/Conserved.antt =====
-- audit/audit.go: no event is lost without a count.
use fold.Prelude.{
  Option, none, some, ℕ, ◌+◌, ◌*◌, ◌≤◌, [], ◌∷◌, length, length-append, ◌≡◌, arith, ap,
}
use fold.Audit.Delivery.{RetryPolicy, dropped, panic_of, deliver_safe, abandon}
use fold.Audit.Delivery.Placed.{placed, placed-append, placed-deliver_safe, placed-abandon}
use fold.Audit.Sink.{
  Worker, waiting, collecting, delivering, exited, Sink, new_sink, buffer_size, batch_size, Step,
  refuse, enter, push, overflow, take, fill, seal, settle, close, finish, give_up, Reach, here,
  next,
}

abbrev pub held : Worker → ℕ
held waiting = 0
held (collecting batch) = length batch
held (delivering batch) = length batch
held exited = 0

-- What has become of the calls of `Emit`: on their way, in the buffer, in the worker's batch, or
-- counted.
abbrev pub total : Sink → ℕ
total s = length s.pending + length s.buffer + held s.worker + placed s.reports

-- Nothing is missing, a panic counts at most a batch twice, and the buffer and the batch keep their
-- bounds.
pub record IsConserved (s : Sink) : Type 0 where
  pub counted : s.emitted ≤ total s
  pub once : total s ≤ s.emitted + batch_size * s.panics
  pub bounded : length s.buffer ≤ buffer_size
  pub batched : held s.worker ≤ batch_size

placed_one : (n : ℕ) → placed (dropped n ∷ []) ≡ n
unfolding placed
placed_one n = omega arith

-- What a delivery counts, when a panic adds a batch at most.
panic_bound :
    (panics : Option ℕ) (n counted : ℕ)
    → n ≤ batch_size
    → counted ≤ (1 + panic_of panics) * n
    → counted ≤ n + batch_size * panic_of panics
panic_bound none n counted h k = omega arith
panic_bound (some made) n counted h k = omega arith

Step-IsConserved : {p : RetryPolicy} {s t : Sink} → Step p s t → IsConserved s → IsConserved t
Step-IsConserved (refuse s c) v =
    let a = placed-append s.reports (dropped 1 ∷ []) in let b = placed_one 1 in omega arith
Step-IsConserved (enter s e c) v = omega arith
Step-IsConserved (push s before after e q room) v =
    let a = ap length q in
    let b = length-append before (e ∷ after) in
    let d = length-append before after in let f = length-append s.buffer (e ∷ []) in omega arith
Step-IsConserved (overflow s before after e q full) v =
    let a = ap length q in
    let b = length-append before (e ∷ after) in
    let d = length-append before after in
    let f = placed-append s.reports (dropped 1 ∷ []) in let g = placed_one 1 in omega arith
Step-IsConserved (take s e rest i q) v = let a = ap held i in let b = ap length q in omega arith
Step-IsConserved (fill s batch e rest i q room) v =
    let a = ap held i in let b = ap length q in let d = length-append batch (e ∷ []) in omega arith
Step-IsConserved (seal s batch i q) v = let a = ap held i in omega arith
Step-IsConserved {p} (settle s batch o i) v =
    let a = ap held i in
    let b = placed-append s.reports (deliver_safe p o batch) in
    let (low, high) = placed-deliver_safe p o batch in
    let d =
      panic_bound o.panics (length batch) (placed (deliver_safe p o batch)) (omega arith) high in
    omega arith
Step-IsConserved (close s) v = omega arith
Step-IsConserved (finish s c i q) v = let a = ap held i in omega arith
Step-IsConserved (give_up s o c i) v =
    let a = ap held i in
    let b = placed-append s.reports (abandon o s.buffer) in
    let d = placed-abandon o s.buffer in omega arith

new_sink-IsConserved : IsConserved new_sink
unfolding placed
new_sink-IsConserved = omega arith

-- In every state that a sink reaches, under every interleaving of its goroutines and every answer of
-- the receiver, no call of `Emit` is missing: there are at least as many events on their way into the
-- buffer, in it, in the worker's hand, and reported as delivered, dead-lettered or dropped. There are
-- just as many as long as no delivery has panicked, and each panic adds a batch, 100 events, at most.
-- The buffer holds at most 1024.
pub Reach-IsConserved : {p : RetryPolicy} {s : Sink} → Reach p new_sink s → IsConserved s
Reach-IsConserved here = new_sink-IsConserved
Reach-IsConserved (next r st) = Step-IsConserved st (Reach-IsConserved r)
