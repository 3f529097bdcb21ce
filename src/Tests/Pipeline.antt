-- ===== src/Tests/Pipeline.antt =====
-- A request through the middleware, and what a panic leaves behind.
use fold.Prelude.{str_eq, ℕ, [], ◌∷◌, none, some, Str, str, ◌≡◌, refl}
use fold.Gateway.Run.{Run, err}
use fold.Gateway.Tenant.{TenantSet}
use fold.Gateway.Calls.{Caller}
use fold.Gateway.Hook.Verdict.{is_ok}
use fold.Gateway.Pipeline.{
  Request, call_params, other_params, Ended, panicked, internal_error, federation_middleware,
  is_plumbing,
}
use fold.Gateway.Pipeline.Told.{exits, is_ok_outcome}
use fold.Gateway.Pipeline.Exit.{Ends, exits-federation_middleware}
use fold.Tests.Data.{alice}
use fold.Tests.World.{world, open_snapshot, fresh_run, get_user}

abbrev no_tenants : TenantSet ℕ ℕ
no_tenants = record {
  by_claim = [];
  by_scope = [];
  by_group = [];
  scan = [];
  by_id = [];
  total = 0;
}

-- Every handler that is not modelled panics.
abbrev panics : Str → Caller ℕ ℕ → Run → Ended × Run
panics method c r = (panicked, r)

panics_quietly : (method : Str) (c : Caller ℕ ℕ) → Ends (panics method c)
unfolding is_ok_outcome
panics_quietly method c r h = (refl, rw h refl)

abbrev tool_request : Request
tool_request = record { method = str "tools/call"; params = call_params get_user }

abbrev list_request : Request
list_request = record { method = str "tools/list"; params = other_params }

list_panics :
    (federation_middleware world open_snapshot
      (str "__")
      no_tenants
      (str "s1")
      panics
      none
      list_request
      fresh_run).0
    ≡ err internal_error
unfolding federation_middleware str_eq
list_panics = refl

exits-federation_middleware_example :
    let (x, r') =
      federation_middleware world open_snapshot
        (str "__")
        no_tenants
        (str "s1")
        panics
        (some alice)
        tool_request
        fresh_run in
    (exits r'.trace ≡ r'.event ∷ []) × (is_ok_outcome r'.event.outcome ≡ is_ok x)
unfolding is_plumbing str_eq exits
exits-federation_middleware_example =
    exits-federation_middleware world open_snapshot (str "__") no_tenants (str "s1") panics
      panics_quietly (some alice) tool_request fresh_run
