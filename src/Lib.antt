-- ===== src/Lib.antt =====
-- A model of fold, a gateway that federates MCP servers behind one endpoint, as far as its
-- decisions go: who may call what, what a list shows, how much a caller may use, what the
-- in-process stores remember, what the audit trail keeps, and which configurations are accepted.
--
-- The parts and their files:
--
--   policy/policy.go, the policy engine. Policy/Glob has the compiled patterns (`compileGlob`,
--   `glob.match`), Policy/Subjects the selectors of principals (`subjectsMatchWhy`,
--   `missingScopes`), Policy/Clauses the compiled clauses (`compileClauses`, `matches`,
--   `matchesArgs`) and Policy/Engine the rest (`New`, `decide` and its callers, the shortfall of
--   scopes). Value has the decoded JSON values (`any`) and `reflect.DeepEqual`, Value/Claims the
--   comparisons of claims and the walk along a path (`claimEqual`, `claimsMatch`, `lookupPath`).
--   The evidence sources, functions in Go, are options: `none` is the nil function, and `some
--   none` one that cannot produce its evidence.
--
--   auth/principal.go and config/config.go: the principal (Auth), and the policy section and the
--   tenants of a document (Config).
--
--   internal/bounded/map.go, the generational map: State/Bounded. internal/breaker/breaker.go,
--   the circuit breaker: State/Breaker. internal/state/budget.go, the accumulating allowances:
--   State/Budget. internal/ratelimit/ratelimit.go, the two-bucket limiter: State/Limiter. Each
--   operation takes the state and the clock and returns the new state; the mutex of the source is
--   the order of the calls. A nil object whose methods may be called is `none`.
--
--   gateway/paginate.go, pages and cursors: Gateway/Paginate. gateway/shaping.go, the filter of a
--   merged list and the caps of its rules: Gateway/Shaping, which asks the engine of
--   Policy/Engine. gateway/tenant.go, the tenants: Gateway/Tenant, with the index in Index and
--   the resolution in Resolve, over the selectors of Policy/Subjects. A pointer to a tenant is
--   its position in the document. gateway/router.go, names and fan-outs: Gateway/Router, with the
--   namespace map of gateway/gateway.go, the public names of gateway/upstream.go, and what
--   config/config.go asks of both. internal/state/state.go, the record store and the single-use
--   recorder: State/Stores.
--
--   gateway/router.go, the named invocations. Gateway/Errors has the codes, wire errors and
--   `classify`; Gateway/Run the state of one request (its audit event, the two indexes of the
--   gateway, and the effects on the world outside, in order) and the monad of the handlers;
--   Gateway/Calls `authorizeCall`, `callTool` and `getPrompt`; Gateway/Complete `complete`;
--   Gateway/Resources `readResource`, with the minted URIs of gateway/uiresource.go;
--   Gateway/Pipeline the middleware around all of them, `federationMiddleware`, with the tenant,
--   the recovery from panics and the audit event. gateway/meta.go, the keys of `_meta`:
--   Gateway/Meta, and Gateway/TaskRoutes for raw messages. gateway/hook.go, the decision hook:
--   Gateway/Hook. gateway/tasks.go: Gateway/Tasks has the index of owners, over the store of
--   State/Stores, Gateway/TaskRoutes `routeTask`, Gateway/TaskPages `listTasks`, and
--   Gateway/TaskList its merge and pages. A handler asks the upstreams, the hook and the codecs
--   through the record `World`, whose answers may depend on all that happened before.
--
--   audit/delivery.go and audit/audit.go: the event (Audit), `Emit` with its scrub
--   (Audit/Logger), the delivery of a batch (Audit/Delivery) and the HTTP sink (Audit/Sink), a
--   step relation over the goroutines that emit, the worker and `Close`: one step is one access
--   to what they share.
--
--   config/config.go, the document (Config/Document) and `Validate`: Config/Checks has the result
--   of a check, Config/Upstreams the loop over the upstreams, Config/Server the server section,
--   Config/Sections and Config/Sinks the others and Config/Validate the whole, which stops at the
--   first problem.
--
-- Strings are lists of bytes; a Go map is an association list with its laws (Prelude/Dicts), and
-- a map that Go ranges over is walked in the order of that list. Int is a mathematical integer;
-- the int64 sums of a budget wrap around. Times are nanoseconds since 1970 in UTC.
--
-- Three loops run on fuel. The end of a month is found by walking the calendar from 1970 with as
-- many steps as there are days, one more than the months that can have passed (`month_end`). The
-- window loop of the limiter has two rounds (`advance`): the first moves by one window at most,
-- and the second stays or jumps to the clock. `collect` of Gateway/Paginate/Walk, a client that
-- follows cursors, has a request for each item and one more. The attempts of a delivery are
-- counted down from the policy.
--
-- Parameters stand for what is not in the repository: SHA-256 and the encoding of cursors
-- (`Codec`), the float64 operations of the limiter (`Float`), the HTTP client, the JSON codec and
-- the clock of a request (`World`), the receiver, the encoder and the file of a sink (`Outside`),
-- and the functions of the standard library that the validation calls (`Std`), with the laws that
-- the proofs use. What an upstream answers (gateway/upstream.go) is a parameter too: a call of a
-- method there, which its rate limit, breaker or budget may refuse before anything goes out, is
-- one entry of the trace, and `annotations_for` answers from the cached list of tools, without
-- the request that refills it.
--
-- Not modelled: the connections of gateway/upstream.go, internal/state/redis.go, auth/ beyond the
-- principal, the construction of loggers and the files of audit/, the icon proxy, discovery, the
-- commands; the handlers of gateway/gateway.go; of gateway/router.go the list handlers, which are
-- a parameter of `route` beside those of the SDK, `setLevel` and the reverse path; metrics and
-- traces; and the checks of tracing in the validation.
--
-- Tests runs the definitions on concrete inputs.
pub mod Audit
pub mod Auth
pub mod Config
pub mod Gateway
pub mod Policy
pub mod Prelude
pub mod State
pub mod Tests
pub mod Value
