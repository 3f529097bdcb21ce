-- ===== src/Policy/Engine/Scopes.antt =====
-- The scopes that a denial of policy/policy.go names: `scopeShortfall` and its use in `decide`.
use fold.Prelude.{Bool, not, ◌&&◌, Str, contains, lookup, ◌≡◌}
use fold.Policy.Subjects.{subjects_match_why}
use fold.Policy.Clauses.{matches}
use fold.Policy.Engine.{CompiledRule, Engine, Ask, Shortfall, is_seen}

-- The set of scopes seen is the list of scopes to report.
abbrev Tracks : Shortfall → Type 0
Tracks s = (sc : Str) → is_seen (lookup sc s.seen) ≡ contains s.out sc

-- The rule has a clause for the server, the method and the name of the invocation, and this scope is
-- among what its subjects lacked. The clause's constraints on arguments and its tool kind do not count.
unfoldable pub lacks_scope : Ask → Str → CompiledRule → Bool
lacks_scope q sc r =
    not (subjects_match_why r.subjects q.principal).0
    && (matches r.allow q.upstream_id q.method q.name
        && contains (subjects_match_why r.subjects q.principal).1 sc)
