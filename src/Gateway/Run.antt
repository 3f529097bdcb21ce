-- ===== src/Gateway/Run.antt =====
-- One request of the gateway: the audit event that it fills in, the two indexes of the gateway that
-- it reads and writes, and what it does to the world outside, in order. Everything outside answers
-- through `World`, which sees the whole trace: two answers to one question need not agree.
use fold.Prelude.{ℕ, List, [], ◌∷◌, ◌++◌, Option, Str, Dict}
use fold.Value.{Fields}
use fold.Audit.{Event}
use fold.Policy.Clauses.{ToolAnnotations}
use fold.State.Bounded.{Bounded}
use fold.Gateway.Meta.{Meta, SdkKeys}
use fold.Gateway.Errors.{Error}

-- What the gateway sends an upstream in a named invocation. Arguments are raw JSON.
pub record Forward : Type 0 where
  pub name : Str
  pub arguments : Str
  pub meta : Meta
  pub input_responses : Str
  pub request_state : Str

-- What an upstream answers: `resources` has the contents of a resource, each with its URI, and
-- `content` is all else but the `_meta`.
pub record Served : Type 0 where
  pub meta : Meta
  pub resources : List (Str × Str)
  pub content : Str

pub record HttpRequest : Type 0 where
  pub url : Str
  pub headers : List (Str × Str)
  pub body : Str

pub record HookPrincipal : Type 0 where
  pub sub : Str
  pub issuer : Str
  pub groups : List Str

pub record HookRequest : Type 0 where
  pub version : Str
  pub stage : Str
  pub method : Str
  pub name : Str
  pub upstream : Str
  pub principal : Option HookPrincipal
  pub tenant : Str
  pub arguments : Str
  pub result : Str

pub record HookResponse : Type 0 where
  pub decision : Str
  pub reason : Str

-- `mcp.CompleteParams`; `argument` has the argument and the context.
pub record CompleteParams : Type 0 where
  pub ref_type : Str
  pub ref_name : Str
  pub ref_uri : Str
  pub argument : Str
  pub meta : Meta

-- `http.NewRequest` fails, `client.Do` fails, or a response with its decoded body.
pub data HttpReply : Type 0 where
  unsendable : HttpReply
  failed : HttpReply
  response : ℕ → Option HookResponse → HttpReply

pub data Effect : Type 0 where
  called : Str → Str → Forward → Effect
  listed_by : Str → Effect
  completed : Str → CompleteParams → Effect
  asked_task : Str → Str → Str → Effect
  posted : HttpRequest → Effect
  observed_hook : Str → Str → Effect
  pushed popped drained : Str → Effect
  emitted : Event → Effect

pub data Result {ℓ} (A : Type ℓ) : Type ℓ where
  ok : A → Result A
  err : Error → Result A

-- The other side: the upstreams with their cached lists, the decision endpoint, the JSON codec, the
-- header names of net/http, SHA-256 in hex, the text of an error, the SDK's names and its error for
-- an unknown resource, the meter of upstream calls, and the clocks. A function that asks an upstream
-- is a method of gateway/upstream.go as its caller sees it: the rate limit, the breaker, the
-- connection or the budget may have refused the call before it went out. `annotations_for` answers
-- from the cached list of tools; the request that refills it is not in the trace. `encode_list` takes
-- the tasks of a page, the next cursor and the upstreams that failed.
pub record World : Type 0 where
  pub ask : List Effect → Str → Str → Forward → Result Served
  pub ask_task : List Effect → Str → Str → Str → Result Str
  pub list_uris : List Effect → Str → Result (List Str)
  pub complete_with : List Effect → Str → CompleteParams → Result Served
  pub metered : List Effect → ℕ
  pub post : List Effect → HttpRequest → HttpReply
  pub decode_args : Str → Option Fields
  pub annotations_for : Str → Str → Option ToolAnnotations
  pub encode_request : HookRequest → Option Str
  pub encode_result : Served → Option Str
  pub decode_object : Str → Option (Dict Str)
  pub encode_object : Dict Str → Option Str
  pub decode_tasks : Str → Option (List Str)
  pub encode_list : List Str → Option Str → Option (List Str) → Result Str
  pub task_id : Str → Str
  pub encode_task_id : Str → Str
  pub cursor_of : Str → Str
  pub encode_task : Str → Str → Option Str
  pub decode_task : Str → Option (Str × Str)
  pub sha256 : Str → Str
  pub canonical_header : Str → Str
  pub render_error : Error → Str
  pub elapsed_ms : List Effect → ℕ
  pub resource_not_found : Str → Error
  pub keys : SdkKeys
  pub now : ℕ

pub record Run : Type 0 where
  pub event : Event
  pub trace : List Effect
  pub resource_owner : Bounded Str
  pub task_owner : Bounded Str

-- A handler: it changes the run, also when it ends in an error.
abbrev pub M : Type 0 → Type 0
M A = Run → Result A × Run

abbrev pub resume : {A B : Type 0} → (A → M B) → Result A → M B
resume f (ok a) r = f a r
resume f (err e) r = (err e, r)

infixl 5 ◌>>=◌ ◌>>◌
abbrev pub ◌>>=◌ : {A B : Type 0} → M A → (A → M B) → M B
◌>>=◌ m f r = resume f (m r).0 (m r).1

abbrev pub ◌>>◌ : {B : Type 0} → M (Unit {0}) → M B → M B
m >> k = m >>= λ _. k

abbrev pub pure : {A : Type 0} → A → M A
pure a r = (ok a, r)

abbrev pub throw : {A : Type 0} → Error → M A
throw e r = (err e, r)

abbrev pub lift : {A : Type 0} → Result A → M A
lift x r = (x, r)

abbrev pub read_run : {A : Type 0} → (Run → A) → M A
read_run f r = (ok (f r), r)

abbrev pub record_event : (Event → Event) → M (Unit {0})
record_event f r = (ok tt, record r { event = f r.event })

abbrev pub emit : Effect → M (Unit {0})
emit e r = (ok tt, record r { trace = r.trace ++ e ∷ [] })

-- A call of a method of one upstream. The trace has the call of the method, which may refuse it.
abbrev pub ask_upstream : World → Str → Str → Forward → M Served
ask_upstream w id method fwd r =
    (w.ask r.trace id method fwd, record r { trace = r.trace ++ called id method fwd ∷ [] })
