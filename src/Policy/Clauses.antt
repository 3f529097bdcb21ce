-- ===== src/Policy/Clauses.antt =====
-- The compiled clauses of policy/policy.go: `compiledAllow`, `compileClauses`, `matches`,
-- `matchesArgs`, `argsSatisfied` and `kindAdmits`.
pub mod Grants
pub mod Order
use fold.Prelude.{
  ℕ, Bool, true, false, not, ◌&&◌, ◌||◌, List, [], ◌∷◌, map, Option, none, some, Str, str, str_eq,
  str_le, split, join, contains, is_empty, if◌then◌else◌,
}
use fold.Value.{Any, Fields, end, field}
use fold.Value.Claims.{claim_equal, lookup_path}
use fold.Config.{PolicyAllow}
use fold.Policy.Glob.{Glob, compile_glob, glob_any}

pub data ToolKind : Type 0 where
  kind_any kind_read_only kind_non_destructive : ToolKind

pub record ToolAnnotations : Type 0 where
  pub read_only : Bool
  pub destructive : Bool

unfoldable pub admits : ToolKind → ToolAnnotations → Bool
admits kind_read_only a = a.read_only
admits kind_non_destructive a = a.read_only || not a.destructive
admits kind_any a = true

pub record CompiledArg : Type 0 where
  pub path : List Str
  pub value : Any

pub record CompiledAllow : Type 0 where
  pub server : Str
  pub methods : List Str
  pub names : List Glob
  pub args : List CompiledArg
  pub kind : ToolKind

-- A source is `none` when nil, and otherwise what its call yields.
pub record Evidence : Type 0 where
  pub args : Option (Option Fields)
  pub tool : Option (Option ToolAnnotations)

pub data ArgMode : Type 0 where
  arg_enforce arg_ignore arg_skip : ArgMode

abbrev pub dot : ℕ
dot = b'.'

abbrev pub path_name : CompiledArg → Str
path_name c = join dot c.path

-- `slices.SortFunc` by the joined path.
unfoldable pub insert_arg : CompiledArg → List CompiledArg → List CompiledArg
insert_arg c [] = c ∷ []
insert_arg c (d ∷ cs) =
    if str_le (path_name c) (path_name d) then c ∷ d ∷ cs else d ∷ insert_arg c cs

unfoldable pub sort_args : List CompiledArg → List CompiledArg
unfolding insert_arg
sort_args [] = []
sort_args (c ∷ cs) = insert_arg c (sort_args cs)

abbrev pub compile_arg : Str → Any → CompiledArg
compile_arg path want = record { path = split dot path; value = want }

unfoldable pub compile_args : Fields → List CompiledArg
compile_args end = []
compile_args (field path want rest) = compile_arg path want ∷ compile_args rest

unfoldable pub compile_kind : Str → ToolKind
compile_kind s =
    if str_eq s (str "readOnly")
    then kind_read_only
    else if str_eq s (str "nonDestructive")
    then kind_non_destructive
    else kind_any

unfoldable pub compile_clause : PolicyAllow → CompiledAllow
unfolding compile_args sort_args compile_kind
compile_clause a = record {
  server = a.server;
  methods = a.methods;
  names = map compile_glob a.names;
  args = sort_args (compile_args a.args);
  kind = compile_kind a.tool_kind;
}

unfoldable pub compile_clauses : List PolicyAllow → List CompiledAllow
unfolding compile_clause
compile_clauses clauses = map compile_clause clauses

-- The loop over the constraints once the arguments are at hand.
unfoldable pub constraints_hold : List CompiledArg → Fields → Bool × Str
constraints_hold [] got = (true, [])
constraints_hold (c ∷ cs) got =
    let rest = constraints_hold cs got in
    elim (lookup_path got c.path) [
      | none ↦ (false, path_name c)
      | some v ↦ if not (claim_equal v c.value) then (false, path_name c) else rest
    ]

unfoldable pub args_satisfied : List CompiledArg → Option (Option Fields) → Bool × Str
unfolding constraints_hold
args_satisfied [] args = (true, [])
args_satisfied (c ∷ cs) none = (false, path_name c)
args_satisfied (c ∷ cs) (some none) = (false, path_name c)
args_satisfied (c ∷ cs) (some (some got)) = constraints_hold (c ∷ cs) got

unfoldable pub kind_admits : ToolKind → Option (Option ToolAnnotations) → Bool
unfolding admits
kind_admits k none = false
kind_admits k (some none) = false
kind_admits k (some (some anno)) = admits k anno

unfoldable pub is_kind_any : ToolKind → Bool
is_kind_any kind_any = true
is_kind_any _ = false

unfoldable pub clause_has_args : CompiledAllow → Bool
clause_has_args c = not (is_empty c.args)

unfoldable pub clause_has_kind : CompiledAllow → Bool
unfolding is_kind_any
clause_has_kind c = not (is_kind_any c.kind)

-- The tests that `matches` and `matchesArgs` share: any that fails skips the clause.
unfoldable pub names_match : CompiledAllow → Str → Str → Str → Bool
names_match a upstream_id method name =
    if not (str_eq a.server (str "*")) && not (str_eq a.server upstream_id)
    then false
    else if not (is_empty a.methods) && not (contains a.methods method)
    then false
    else if not (is_empty a.names) && not (glob_any a.names name)
    then false
    else true

unfoldable pub matches : List CompiledAllow → Str → Str → Str → Bool
unfolding names_match
matches [] upstream_id method name = false
matches (a ∷ clauses) upstream_id method name =
    let next = matches clauses upstream_id method name in
    if names_match a upstream_id method name then true else next

-- The `switch` on the argument constraints of one clause: whether it grants, and the path that
-- refused it.
unfoldable pub args_verdict : CompiledAllow → Evidence → ArgMode → Bool × Str
unfolding args_satisfied
args_verdict a ev mode = if is_empty a.args then (true, []) else elim mode [
  | arg_skip ↦ (false, [])
  | arg_enforce ↦ args_satisfied a.args ev.args
  | arg_ignore ↦ (true, [])
]

unfoldable pub matches_args_from :
    Str → List CompiledAllow → Str → Str → Str → Evidence → ArgMode → Bool × Str
unfolding names_match args_verdict kind_admits is_kind_any
matches_args_from failed [] upstream_id method name ev mode = (false, failed)
matches_args_from failed (a ∷ clauses) upstream_id method name ev mode =
    let verdict = args_verdict a ev mode in
    let tested =
      names_match a upstream_id method name
      && not (not (is_kind_any a.kind) && not (kind_admits a.kind ev.tool)) in
    let noted = if tested && is_empty failed then verdict.1 else failed in
    let next = matches_args_from noted clauses upstream_id method name ev mode in
    if tested && verdict.0 then (true, []) else next

unfoldable pub matches_args : List CompiledAllow → Str → Str → Str → Evidence → ArgMode → Bool × Str
unfolding matches_args_from
matches_args = matches_args_from []
