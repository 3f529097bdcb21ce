-- ===== src/Audit/Sink.antt =====
-- audit/audit.go: the HTTP sink as a system: the goroutines that emit, the worker that collects and
-- delivers, and `Close`. One step is one access to what they share; they interleave freely.
pub mod Conserved
pub mod Late
use fold.Prelude.{ℕ, suc, ◌+◌, ◌≤◌, ◌<◌, Bool, true, false, List, [], ◌∷◌, ◌++◌, length, ◌≡◌, ◌⊎◌}
use fold.Audit.{Event}
use fold.Audit.Delivery.{RetryPolicy, Outside, Report, dropped, panic_of, deliver_safe, abandon}

abbrev pub buffer_size : ℕ
buffer_size = 1024

abbrev pub batch_size : ℕ
batch_size = 100

-- What the worker does: it waits in the loop, collects a batch, delivers it, or has stopped.
pub data Worker : Type 0 where
  waiting : Worker
  collecting : List Event → Worker
  delivering : List Event → Worker
  exited : Worker

-- `pending` has the events whose goroutine has read `closed` as false and not yet sent them.
-- `emitted` counts the calls of `Emit`, and `panics` those of the panic hook.
pub record Sink : Type 0 where
  pub buffer : List Event
  pub closed : Bool
  pub pending : List Event
  pub worker : Worker
  pub reports : List Report
  pub emitted : ℕ
  pub panics : ℕ

abbrev pub new_sink : Sink
new_sink = record {
  buffer = [];
  closed = false;
  pending = [];
  worker = waiting;
  reports = [];
  emitted = 0;
  panics = 0;
}

pub data Step (p : RetryPolicy) : Sink → Sink → Type 0 where
  -- `Emit` up to its test of `closed`, and past it.
  refuse :
      (s : Sink)
      → s.closed ≡ true
      → Step p s (record s { reports = s.reports ++ dropped 1 ∷ []; emitted = s.emitted + 1 })
  enter :
      (s : Sink) (e : Event)
      → s.closed ≡ false
      → Step p s (record s { pending = e ∷ s.pending; emitted = s.emitted + 1 })
  -- The `select` of `Emit`.
  push :
      (s : Sink) (before after : List Event) (e : Event)
      → s.pending ≡ before ++ (e ∷ after)
      → length s.buffer < buffer_size
      → Step p s (record s { pending = before ++ after; buffer = s.buffer ++ e ∷ [] })
  overflow :
      (s : Sink) (before after : List Event) (e : Event)
      → s.pending ≡ before ++ (e ∷ after)
      → buffer_size ≤ length s.buffer
      → Step p s (record s { pending = before ++ after; reports = s.reports ++ dropped 1 ∷ [] })
  -- The worker takes the first event of a batch, fills the batch until the buffer is empty or the
  -- batch full, and delivers it.
  take :
      (s : Sink) (e : Event) (rest : List Event)
      → s.worker ≡ waiting
      → s.buffer ≡ e ∷ rest
      → Step p s (record s { worker = collecting (e ∷ []); buffer = rest })
  fill :
      (s : Sink) (batch : List Event) (e : Event) (rest : List Event)
      → s.worker ≡ collecting batch
      → s.buffer ≡ e ∷ rest
      → length batch < batch_size
      → Step p s (record s { worker = collecting (batch ++ e ∷ []); buffer = rest })
  seal :
      (s : Sink) (batch : List Event)
      → s.worker ≡ collecting batch
      → (s.buffer ≡ []) ⊎ (batch_size ≤ length batch)
      → Step p s (record s { worker = delivering batch })
  settle :
      (s : Sink) (batch : List Event) (o : Outside)
      → s.worker ≡ delivering batch
      → Step p s (record s {
        worker = waiting;
        reports = s.reports ++ deliver_safe p o batch;
        panics = s.panics + panic_of o.panics;
      })
  -- `Close`; and the end of the worker, with an empty buffer or out of time.
  close : (s : Sink) → Step p s (record s { closed = true })
  finish :
      (s : Sink)
      → s.closed ≡ true
      → s.worker ≡ waiting
      → s.buffer ≡ []
      → Step p s (record s { worker = exited })
  give_up :
      (s : Sink) (o : Outside)
      → s.closed ≡ true
      → s.worker ≡ waiting
      → Step p s
          (record s { worker = exited; buffer = []; reports = s.reports ++ abandon o s.buffer })

pub data Reach (p : RetryPolicy) (s : Sink) : Sink → Type 0 where
  here : Reach p s s
  next : {t u : Sink} → Reach p s t → Step p t u → Reach p s u
