-- ===== src/Tests/World.antt =====
-- A world, a snapshot and a caller for the tests of the request path.
use fold.Prelude.{
  ℕ, true, false, [], ◌∷◌, ◌++◌, pos, take, drop, length, Option, none, some, Str, str,
}
use fold.Value.{end, field, Any}
use fold.Audit.{no_event}
use fold.Policy.Engine.{new_engine, allow_all}
use fold.State.Bounded.{Bounded}
use fold.Gateway.Meta.{SdkKeys}
use fold.Gateway.Errors.{plain}
use fold.Gateway.Run.{Forward, Served, HttpReply, response, ok, World, Run}
use fold.Gateway.Hook.{HookConfig, DecisionHook}
use fold.Gateway.Router.{Upstream, new_routes}
use fold.Gateway.Calls.{Snapshot, Caller}
use fold.Tests.Data.{alice, document}

abbrev pub sdk_keys : SdkKeys
sdk_keys = record {
  protocol_version = str "io.modelcontextprotocol/protocolVersion";
  client_info = str "io.modelcontextprotocol/clientInfo";
  client_capabilities = str "io.modelcontextprotocol/clientCapabilities";
  server_info = str "io.modelcontextprotocol/serverInfo";
}

abbrev pub served : Served
served = record { meta = none; resources = []; content = str "done" }

abbrev pub allowing : HttpReply
allowing = response 200 (some (record { decision = str "allow"; reason = [] }))

abbrev pub denying : HttpReply
denying = response 200 (some (record { decision = str "deny"; reason = str "secret" }))

-- A record of a task is the length of the upstream's id, the id, and the owner.
abbrev pub parse_record : Str → Option (Str × Str)
parse_record [] = none
parse_record (n ∷ bytes) = some (take n bytes, drop n bytes)

abbrev pub world : World
world = record {
  ask = λ trace id method fwd. ok served;
  ask_task = λ trace id method raw. ok (str "{}");
  list_uris = λ trace id. ok [];
  complete_with = λ trace id params. ok served;
  metered = length;
  post = λ trace q. allowing;
  decode_args = λ raw. some end;
  annotations_for = λ id bare. none;
  encode_request = λ q. some q.stage;
  encode_result = λ out. some out.content;
  decode_object = λ raw. none;
  encode_object = λ d. none;
  encode_list = λ page next failed. ok (str "page");
  decode_tasks = λ raw. some (raw ∷ []);
  task_id = λ raw. raw;
  encode_task_id = λ id. id;
  cursor_of = λ raw. [];
  encode_task = λ upstream owner. some (length upstream ∷ upstream ++ owner);
  decode_task = parse_record;
  sha256 = λ bytes. bytes;
  canonical_header = λ name. name;
  render_error = λ e. [];
  elapsed_ms = λ trace. 0;
  resource_not_found = λ uri. plain [];
  keys = sdk_keys;
  now = 5;
}

abbrev pub empty_map : Bounded Str
empty_map = record { limit = 4; cur = []; prev = [] }

abbrev pub fresh_run : Run
fresh_run = record {
  event = no_event;
  trace = [];
  resource_owner = empty_map;
  task_owner = empty_map;
}

abbrev pub ci : Upstream
ci = record { id = str "ci"; namespace = str "ci" }

abbrev pub wiki : Upstream
wiki = record { id = str "wiki"; namespace = str "wiki" }

abbrev pub hook_config : HookConfig
hook_config = record {
  url = str "https://hook";
  stages = str "ingress" ∷ str "egress" ∷ [];
  methods = [];
  timeout_ms = pos 100;
  on_error = str "deny";
  headers = [];
  bearer_secret_ref = [];
}

abbrev pub hook : DecisionHook
hook = record {
  url = str "https://hook";
  headers = [];
  bearer = [];
  fail_open = false;
  stages = (str "ingress", true) ∷ (str "egress", true) ∷ [];
  methods = [];
}

abbrev pub snapshot : Snapshot
snapshot = record {
  routes = new_routes (ci ∷ wiki ∷ []);
  policy = new_engine (some document);
  hook = some hook;
  by_id = (str "ci", ci) ∷ (str "wiki", wiki) ∷ [];
}

abbrev pub caller : Caller ℕ ℕ
caller = record { principal = some alice; tenant = none; session = str "s1" }

abbrev pub get_user : Forward
get_user = record {
  name = str "ci__get_user";
  arguments = str "{}";
  meta = none;
  input_responses = [];
  request_state = [];
}

abbrev pub open_snapshot : Snapshot
open_snapshot = record snapshot { policy = allow_all }

abbrev pub ui_read : Forward
ui_read = record get_user { name = str "ui://fold/wiki/main" }

abbrev pub served_tagged : Served
served_tagged = record served {
  meta = some (field (str "run.fold/upstream") (Any.string (str "ci")) end);
}
