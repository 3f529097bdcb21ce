-- ===== src/Gateway/Hook/Verdict.antt =====
-- gateway/hook.go: what the hook decides, on every reply of its endpoint, and what a stage leaves
-- behind.
use fold.Prelude.{
  Bool, true, false, not, ◌&&◌, ◌||◌, List, [], ◌∷◌, ◌++◌, ltb, Option, none, some, Str, str,
  str_eq, str_eq_iff, if◌then◌else◌, ◌≡◌, refl, arith, append-nil,
}
use fold.Gateway.Run.{
  HookRequest, HookResponse, HttpRequest, HttpReply, unsendable, failed, response, Forward, Effect,
  called, completed, posted, observed_hook, pushed, popped, drained, emitted, asked_task, listed_by,
  Result, ok, err, World, Run,
}
use fold.Gateway.Hook.{
  DecisionHook, HookOutcome, allowed, denied, errored, on_error, read_reply, read_decision, decide,
  http_request, is_sent, send,
}

-- The endpoint answered 2xx with this word as its decision.
abbrev pub says_word : Str → Option HookResponse → Bool
says_word word none = false
says_word word (some out) = str_eq out.decision word

unfoldable pub says : Str → HttpReply → Bool
says word unsendable = false
says word failed = false
says word (response status out) = not (ltb status 200) && not (ltb 299 status) && says_word word out

abbrev pub goes_on : HookOutcome → Bool
goes_on allowed = true
goes_on denied = false
goes_on errored = true

-- The two words differ.
allow-ne-deny : (s : Str) → str_eq s (str "allow") ≡ true → str_eq s (str "deny") ≡ false
unfolding str_eq
allow-ne-deny s h = rw ((str_eq_iff s (str "allow")).0 h) refl

-- A request goes on exactly when the endpoint said "allow", or when the hook fails open and the
-- endpoint did not say "deny".
pub goes_on-read_reply :
    (h : DecisionHook) (reply : HttpReply)
    → goes_on (read_reply h reply).0
      ≡ (says (str "allow") reply || (h.fail_open && not (says (str "deny") reply)))
unfolding read_reply read_decision on_error says
goes_on-read_reply h unsendable = ground arith
goes_on-read_reply h failed = ground arith
goes_on-read_reply h (response status none) = ground arith
goes_on-read_reply h (response status (some out)) = ground (arith, allow-ne-deny out.decision)

-- The verdict on a request, by the reply that the world gives at this point.
unfoldable pub verdict_of : World → DecisionHook → List Effect → Option Str → HookOutcome × Str
verdict_of w h trace none = (on_error h, [])
verdict_of w h trace (some body) = read_reply h (w.post trace (http_request w h body))

-- The named invocations that a trace has sent to upstreams.
unfoldable pub calls : List Effect → List (Str × Str × Forward)
calls [] = []
calls (called id method fwd ∷ es) = (id, method, fwd) ∷ calls es
calls (completed id params ∷ es) = calls es
calls (posted q ∷ es) = calls es
calls (observed_hook stage outcome ∷ es) = calls es
calls (pushed key ∷ es) = calls es
calls (popped key ∷ es) = calls es
calls (drained key ∷ es) = calls es
calls (emitted e ∷ es) = calls es
calls (asked_task id method raw ∷ es) = calls es
calls (listed_by id ∷ es) = calls es

pub calls-append : (es fs : List Effect) → calls (es ++ fs) ≡ calls es ++ calls fs
unfolding calls
calls-append [] fs = refl
calls-append (called id method fwd ∷ es) fs = ground (arith, calls-append es fs)
calls-append (completed id params ∷ es) fs = calls-append es fs
calls-append (posted q ∷ es) fs = calls-append es fs
calls-append (observed_hook stage outcome ∷ es) fs = calls-append es fs
calls-append (pushed key ∷ es) fs = calls-append es fs
calls-append (popped key ∷ es) fs = calls-append es fs
calls-append (drained key ∷ es) fs = calls-append es fs
calls-append (emitted e ∷ es) fs = calls-append es fs
calls-append (asked_task id method raw ∷ es) fs = calls-append es fs
calls-append (listed_by id ∷ es) fs = calls-append es fs

-- An effect that is no call.
pub calls-quiet :
    (es : List Effect) (e : Effect) → calls (e ∷ []) ≡ [] → calls (es ++ e ∷ []) ≡ calls es
calls-quiet es e h = rw (calls-append es (e ∷ []), h) (append-nil (calls es))

abbrev pub is_ok {ℓ} : {A : Type ℓ} → Result A → Bool
is_ok (ok a) = true
is_ok (err e) = false

module _ (w : World) (h : DecisionHook) where
  posted_kept :
      (q : HttpRequest) (reply : HttpReply) (r : Run)
      → let r' = if is_sent reply then record r { trace = r.trace ++ posted q ∷ [] } else r in
        (calls r'.trace ≡ calls r.trace) × (r'.event ≡ r.event)
  unfolding calls
  posted_kept q unsendable r = (refl, refl)
  posted_kept q failed r = (calls-quiet r.trace _ refl, refl)
  posted_kept q (response status out) r = (calls-quiet r.trace _ refl, refl)

  send-verdict_of :
      (body : Option Str) (r : Run)
      → ((send w h body r).0 ≡ ok (verdict_of w h r.trace body))
        × (calls (send w h body r).1.trace ≡ calls r.trace)
        × ((send w h body r).1.event ≡ r.event)
  unfolding verdict_of read_reply http_request on_error
  send-verdict_of none r = (refl, refl, refl)
  send-verdict_of (some body) r =
      let q = http_request w h body in
      let (same_calls, same_event) = posted_kept q (w.post r.trace q) r in
      (refl, same_calls, same_event)

  pub decide-verdict_of :
      (req : HookRequest) (r : Run)
      → ((decide w h req r).0 ≡ ok (verdict_of w h r.trace (w.encode_request req)))
        × (calls (decide w h req r).1.trace ≡ calls r.trace)
        × ((decide w h req r).1.event ≡ r.event)
  unfolding decide
  decide-verdict_of req r = send-verdict_of (w.encode_request req) r
