-- ===== src/Tests/Data.antt =====
-- A policy document, its callers and its tools.
use fold.Prelude.{false, true, pos, [], ◌∷◌, some, Str, str}
use fold.Value.{Any, Fields, end, field}
use fold.Auth.{Principal}
use fold.Config.{PolicySubjects, PolicyAllow, PolicyRule, PolicyConfig}
use fold.Policy.Clauses.{Evidence}
use fold.Policy.Engine.{Ask}

abbrev pub alice : Principal
alice = record {
  subject = str "alice";
  issuer = str "idp";
  groups = str "eng" ∷ [];
  scopes = str "read" ∷ [];
  token = str "t";
  expiry = 100;
  claims = end;
}

abbrev pub engineers : PolicySubjects
engineers = record { groups = str "eng" ∷ []; subs = []; issuers = []; claims = end; scopes = [] }

abbrev pub writers : PolicySubjects
writers = record engineers { scopes = str "read" ∷ str "write" ∷ [] }

abbrev pub any_call : PolicyAllow
any_call = record { server = str "*"; methods = []; names = []; args = end; tool_kind = str "" }

abbrev pub staging : Fields
staging = field (str "env") (Any.string (str "staging")) end

abbrev pub reads : PolicyRule
reads = record {
  id = str "reads";
  subjects = some engineers;
  allow = record any_call { names = str "get_*" ∷ [] } ∷ [];
  deny = [];
  max_items = pos 2;
}

abbrev pub deploys : PolicyRule
deploys = record reads {
  id = str "deploys";
  allow = record any_call { names = str "deploy" ∷ []; args = staging } ∷ [];
  deny = record any_call { names = str "*_secret" ∷ [] } ∷ [];
}

abbrev pub writes : PolicyRule
writes = record reads {
  id = str "writes";
  subjects = some writers;
  allow = record any_call { names = str "put_*" ∷ [] } ∷ [];
}

abbrev pub document : PolicyConfig
document = record {
  default_decision = str "deny";
  rules = reads ∷ deploys ∷ writes ∷ [];
  server_initiated_decision = str "";
}

abbrev pub ask : Str → Ask
ask name = record {
  principal = some alice;
  upstream_id = str "ci";
  method = str "tools/call";
  name = name;
}

abbrev pub to_staging : Evidence
to_staging = record {
  args = some (some staging);
  tool = some (some (record { read_only = false; destructive = true }));
}
