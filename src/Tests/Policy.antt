-- ===== src/Tests/Policy.antt =====
-- The policy engine on the document of `Data`.
use mathlib.Core.List.{Permᴰ, Nodup, Nodup-cons, Nodup-nil, not-mem-nil, eq-or-mem_of_mem-cons}
use mathlib.Core.List.Perm
use mathlib.Core.Logic.Or
use mathlib.Core.HLevel.{⊥_prop}
use fold.Prelude.{
  true, false, not, ◌&&◌, ◌||◌, [], ◌∷◌, map, any, some, str, str_eq, str_le, contains, split, join,
  has_prefix, lookup, insert, ◌≡◌, refl, ◌↔◌, arith,
}
use fold.Value.{Any, Fields, end, field, field_lookup, float_eq, bool_eq, deep_equal}
use fold.Value.Claims.{claim_equal, claims_match, lookup_path}
use fold.Policy.Glob.{glob_match, compile_glob, match, glob_any}
use fold.Policy.Glob.Wildcard.{Wild, glob_match-Wild}
use fold.Policy.Subjects.{subjects_match, subjects_match_why}
use fold.Policy.Subjects.Shortfall.{unmet_scopes_suffice}
use fold.Policy.Clauses.{
  arg_enforce, compile_args, sort_args, compile_clauses, matches, matches_args,
}
use fold.Policy.Clauses.Order.{entries, compile_args-order}
use fold.Policy.Engine.{Ask, new_engine, compile_rule, decide_ask, decide_call, decide_list}
use fold.Policy.Engine.Fast.{plain_decide, decide_ask-plain_decide}
use fold.Policy.Engine.Allowed.{refuses, grants, decide_ask-allowed, decide_ask-perm}
use fold.Policy.Engine.Visible.{decide_call-decide_list}
use fold.Policy.Engine.Scopes.{lacks_scope}
use fold.Config.{PolicyConfig}
use fold.Tests.Data.{any_call, alice, writers, reads, deploys, writes, document, ask, to_staging}

program : Unit {0}
unfolding str_eq str_le split join has_prefix lookup insert field_lookup float_eq bool_eq deep_equal
    claim_equal claims_match lookup_path compile_glob match glob_any subjects_match
    subjects_match_why compile_args sort_args compile_clauses matches matches_args new_engine
    decide_ask decide_call decide_list refuses grants lacks_scope glob_match
program = tt

abbrev production : Fields
production = field (str "env") (Any.string (str "production")) end

abbrev as_writer : Ask
as_writer = record (ask (str "put_x")) {
  principal = some (record alice { scopes = str "read" ∷ str "write" ∷ [] });
}

deploy_allowed :
    (decide_call (new_engine (some document)) (ask (str "deploy")) to_staging).rule_id
    ≡ str "deploys"
unfolding program
deploy_allowed = refl

secret_refused :
    (decide_call (new_engine (some document)) (ask (str "get_secret")) to_staging).allowed ≡ false
unfolding program
secret_refused = refl

put_lacks_write :
    (decide_call (new_engine (some document)) (ask (str "put_x")) to_staging).missing_scopes
    ≡ str "write" ∷ []
unfolding program
put_lacks_write = refl

-- Only production may be written to, with a scope that Alice lacks. She is told of the scope, and
-- would be refused for her argument with it.
abbrev guarded : PolicyConfig
guarded = record document {
  rules =
      record writes { allow = record any_call { names = str "put_*" ∷ []; args = production } ∷ [] }
      ∷ [];
}

guarded_lacks_write :
    (decide_call (new_engine (some guarded)) (ask (str "put_x")) to_staging).missing_scopes
    ≡ str "write" ∷ []
unfolding program
guarded_lacks_write = refl

guarded_refuses_write :
    (decide_call (new_engine (some guarded)) as_writer to_staging).allowed ≡ false
unfolding program
guarded_refuses_write = refl

decide_ask-plain_decide_example :
    decide_ask (ask (str "get_x")) (new_engine (some document)) to_staging arg_enforce
    ≡ plain_decide
        (ask (str "get_x"))
        to_staging
        arg_enforce
        false
        (compile_rule reads ∷ compile_rule deploys ∷ compile_rule writes ∷ [])
unfolding program
decide_ask-plain_decide_example =
    decide_ask-plain_decide (ask (str "get_x")) to_staging arg_enforce document

decide_ask-allowed_example :
    (decide_ask (ask (str "deploy")) (new_engine (some document)) to_staging arg_enforce).allowed
    ≡ (not (
          any
            (refuses (ask (str "deploy")) to_staging arg_enforce)
            (map compile_rule document.rules))
        && (any
              (grants (ask (str "deploy")) to_staging arg_enforce)
              (map compile_rule document.rules)
            || false))
unfolding program
decide_ask-allowed_example = decide_ask-allowed (ask (str "deploy")) to_staging arg_enforce document

decide_ask-perm_example :
    (decide_ask
      (ask (str "get_secret"))
      (new_engine (some document))
      to_staging
      arg_enforce).allowed
    ≡ (decide_ask
        (ask (str "get_secret"))
        (new_engine (some (record document { rules = deploys ∷ reads ∷ writes ∷ [] })))
        to_staging
        arg_enforce).allowed
decide_ask-perm_example =
    decide_ask-perm (ask (str "get_secret")) to_staging arg_enforce document
      (deploys ∷ reads ∷ writes ∷ []) (Perm.swap deploys reads (writes ∷ []))

decide_call-decide_list_example :
    (decide_list (new_engine (some document)) (ask (str "deploy")) to_staging.tool).allowed ≡ true
unfolding program
decide_call-decide_list_example =
    decide_call-decide_list (some document) (ask (str "deploy")) to_staging refl

unmet_scopes_suffice_example :
    (subjects_match (some writers) (some alice) ≡ false)
    × ((contains (str "write" ∷ []) (str "write") && contains (str "read" ∷ []) (str "write"))
        ≡ false)
    × (subjects_match
          (some writers)
          (some (record alice { scopes = str "read" ∷ str "write" ∷ [] }))
        ≡ true)
unfolding program
unmet_scopes_suffice_example = unmet_scopes_suffice writers alice (str "write") refl

glob_match-Wild_example :
    (glob_match (str "a*b*c") (str "a-b-b-c") ≡ true) ↔ Wild (str "a*b*c") (str "a-b-b-c")
glob_match-Wild_example = glob_match-Wild (str "a*b*c") (str "a-b-b-c")

abbrev one_order : Fields
one_order = field (str "b") Any.null (field (str "a") Any.null end)

abbrev other_order : Fields
other_order = field (str "a") Any.null (field (str "b") Any.null end)

distinct : Nodup (str "b" ∷ str "a" ∷ [])
distinct = Nodup-cons.1 (
  λ m. Or.elim ⊥_prop (eq-or-mem_of_mem-cons m) (λ e. ground arith) not-mem-nil,
  Nodup-cons.1 (not-mem-nil, Nodup-nil),
)

compile_args-order_example :
    sort_args (compile_args one_order) ≡ sort_args (compile_args other_order)
unfolding entries
compile_args-order_example =
    compile_args-order one_order other_order (Permᴰ.swap refl refl) distinct
