-- ===== src/Witnesses/PathCases.antt =====
-- The theorem on project paths at a path of two segments.
use gitlab_geo_sync.Prelude.{◌≡◌}
use gitlab_geo_sync.Go.Fmt.{ok}
use gitlab_geo_sync.ProjectPath.{validate}
use gitlab_geo_sync.ProjectPath.Grammar.{InGrammar}
use gitlab_geo_sync.ProjectPath.Accepts.{validate-InGrammar}

validate-InGrammar_example :
    (validate "group/sub.project-1" ≡ ok tt → InGrammar "group/sub.project-1")
    × (InGrammar "group/sub.project-1" → validate "group/sub.project-1" ≡ ok tt)
validate-InGrammar_example = validate-InGrammar "group/sub.project-1"
