-- ===== src/Audit/Sink/Late.antt =====
-- audit/audit.go: an event that is sent while the sink closes.
use fold.Prelude.{
  true, List, [], ◌∷◌, ◌++◌, append_assoc, append-nil, ◌≡◌, refl, sym, ◌∙◌, arith, ap,
}
use fold.Audit.{Event}
use fold.Audit.Delivery.{RetryPolicy}
use fold.Audit.Sink.{
  exited, Sink, new_sink, Step, refuse, enter, push, overflow, take, fill, seal, settle, close,
  finish, give_up, Reach, here, next,
}

abbrev Stays : Sink → Sink → Type 0
Stays s t = (t.worker ≡ exited) × (more : List Event) × (t.buffer ≡ s.buffer ++ more)

Step-Stays : {p : RetryPolicy} (s : Sink) {t u : Sink} → Step p t u → Stays s t → Stays s u
Step-Stays s (refuse t c) (w, more, q) = (w, more, q)
Step-Stays s (enter t e c) (w, more, q) = (w, more, q)
Step-Stays s (push t before after e i room) (w, more, q) =
    (w, more ++ e ∷ [], ap (λ b. b ++ e ∷ []) q ∙ append_assoc s.buffer more (e ∷ []))
Step-Stays s (overflow t before after e i full) (w, more, q) = (w, more, q)
Step-Stays s (take t e rest i b) (w, more, q) = absurd (cc)
Step-Stays s (fill t batch e rest i b room) (w, more, q) = absurd (cc)
Step-Stays s (seal t batch i b) (w, more, q) = absurd (cc)
Step-Stays s (settle t batch o i) (w, more, q) = absurd (cc)
Step-Stays s (close t) (w, more, q) = (w, more, q)
Step-Stays s (finish t c i b) (w, more, q) = absurd (cc)
Step-Stays s (give_up t o c i) (w, more, q) = absurd (cc)

-- Once the worker has stopped, what is in the buffer stays there.
pub Reach-Stays : {p : RetryPolicy} {s t : Sink} → s.worker ≡ exited → Reach p s t → Stays s t
Reach-Stays {s = s} h here = (h, [], sym (append-nil s.buffer))
Reach-Stays {s = s} h (next r st) = Step-Stays s st (Reach-Stays h r)

abbrev late : Event → Sink
late e = record new_sink { closed = true; worker = exited; buffer = e ∷ []; emitted = 1 }

-- For every event there is a run of a new sink, with no failure of anything, after which the event
-- stays in the buffer for good: nothing is reported of it, and the worker has stopped.
pub late_event :
    (p : RetryPolicy) (e : Event)
    → (s : Sink) × Reach p new_sink s
      × (s.reports ≡ [])
      × (s.emitted ≡ 1)
      × ((t : Sink) → Reach p s t → (more : List Event) × (t.buffer ≡ e ∷ more))
late_event p e =
    let s1 = record new_sink { pending = e ∷ []; emitted = 1 } in
    let s2 = record s1 { closed = true } in
    let s3 = record s2 { worker = exited } in
    (
      late e,
      next (next (next (next here (enter new_sink e refl)) (close s1)) (finish s2 refl refl refl))
          (push s3 [] [] e refl (omega arith)),
      refl,
      refl,
      λ t r. let (w, more, q) = Reach-Stays refl r in (more, q),
    )
