-- ===== src/Tests/Requests.antt =====
-- The request path on concrete inputs.
use fold.Prelude.{
  true, false, [], ◌∷◌, ◌++◌, all, some, str, str_eq, lookup, insert, has_prefix, ◌≡◌, refl,
}
use fold.Value.{field, end, Any, field_lookup}
use fold.Gateway.Meta.{sanitize_request_meta, tag_upstream, fields_of}
use fold.Gateway.Meta.Stripped.{sanitize_request_meta-lookup}
use fold.Gateway.Run.{ok, Served}
use fold.Gateway.Router.{new_routes, valid_namespaces, matches_id}
use fold.Gateway.Hook.{hook_ingress, hook_egress, inspects, read_reply}
use fold.Gateway.Hook.Verdict.{calls, says, goes_on, goes_on-read_reply}
use fold.Gateway.Hook.Stages.{ingress_passes, egress_passes}
use fold.Gateway.Calls.{
  invoke, call_tool, note_call, with_call_ctx, drained_ask, forwarded, evidence_for,
}
use fold.Gateway.Calls.Guarded.{call_for, call_tool-calls}
use fold.Gateway.Calls.Disclosed.{invoke-ok}
use fold.Gateway.Resources.{mint_ui_uri, ui_owner, read_resource}
use fold.Gateway.Resources.Uris.{ui_owner-mint_ui_uri}
use fold.Gateway.Resources.Reads.{admitted_read, read_resource-Admitted}
use fold.Gateway.Router.{resolve, valid_names}
use fold.Policy.Engine.{decide, allow_all}
use fold.Gateway.Tenant.Resolve.{sees}
use fold.Gateway.Tasks.{note_minted_task}
use fold.Tests.World.{
  sdk_keys, denying, world, fresh_run, ci, wiki, hook, snapshot, open_snapshot, ui_read, caller,
  get_user, served_tagged,
}

call_tool-calls_example :
    calls (call_tool world snapshot (str "__") caller (some get_user) fresh_run).1.trace
    ≡ []
      ++ call_for world snapshot
          (str "__")
          caller
          (str "tools/call")
          (λ u bare. evidence_for world snapshot (str "__") caller u bare (str "{}"))
          (str "{}")
          get_user
          fresh_run
          (resolve snapshot.routes (str "__") (str "ci__get_user"))
unfolding calls
call_tool-calls_example = call_tool-calls world snapshot (str "__") caller get_user fresh_run

goes_on-read_reply_example : goes_on (read_reply hook denying).0 ≡ false
unfolding says str_eq
goes_on-read_reply_example = goes_on-read_reply hook denying

ui_owner-mint_ui_uri_example :
    ui_owner (new_routes (ci ∷ wiki ∷ [])) (mint_ui_uri (str "wiki") (str "ui://app/main"))
    ≡ some (wiki, str "ui://app/main")
unfolding valid_names valid_namespaces matches_id str_eq
ui_owner-mint_ui_uri_example = ui_owner-mint_ui_uri (ci ∷ []) [] wiki b'a' (str "pp/main") refl refl

sanitize_request_meta-lookup_example :
    field_lookup (str "progressToken") (
      fields_of (
        sanitize_request_meta sdk_keys (
          some (
            field
              (str "io.modelcontextprotocol/clientInfo")
              Any.null
              (field (str "progressToken") (Any.string (str "t")) end)))))
    ≡ some (Any.string (str "t"))
unfolding str_eq field_lookup
sanitize_request_meta-lookup_example =
    sanitize_request_meta-lookup sdk_keys
      (some (
        field (str "io.modelcontextprotocol/clientInfo") Any.null
          (field (str "progressToken") (Any.string (str "t")) end)))
      (str "progressToken")

read_resource-Admitted_example :
    all
      (admitted_read world open_snapshot caller)
      (calls (read_resource world open_snapshot caller (some ui_read) fresh_run).1.trace)
    ≡ true
unfolding calls
read_resource-Admitted_example =
    read_resource-Admitted world open_snapshot caller (some ui_read) fresh_run refl

read_asks :
    calls (read_resource world open_snapshot caller (some ui_read) fresh_run).1.trace
    ≡ (str "wiki", str "resources/read", record ui_read { name = str "ui://main" }) ∷ []
unfolding read_resource calls ui_owner new_routes has_prefix lookup insert str_eq sees decide
    allow_all sanitize_request_meta
read_asks = refl

invoke-ok_example :
    let entered =
      (hook_ingress world caller.principal
        (str "tools/call")
        (str "ci")
        snapshot.hook
        (str "get_user")
        (str "{}")
        fresh_run).1 in
    let asked =
      with_call_ctx caller.session
        (drained_ask world caller.session
          (str "ci")
          (str "tools/call")
          (forwarded world snapshot (str "__") caller (str "get_user") get_user))
        entered in
    (ingress_passes world caller.principal
        (str "tools/call")
        (str "ci")
        snapshot.hook
        (str "get_user")
        (str "{}")
        fresh_run
      ≡ true)
    × (out : Served) × (asked.0 ≡ ok out)
    × (egress_passes world caller.principal
          (str "tools/call")
          (str "ci")
          snapshot.hook
          (str "get_user")
          out
          asked.1
        ≡ true)
    × (served_tagged ≡ record out { meta = tag_upstream sdk_keys (str "ci") out.meta })
unfolding invoke hook_ingress inspects lookup str_eq hook_egress note_minted_task tag_upstream
invoke-ok_example =
    invoke-ok world snapshot (str "__") caller (note_call world snapshot (str "__") caller) ci
      (str "tools/call") (str "get_user") (str "{}") get_user fresh_run served_tagged refl
