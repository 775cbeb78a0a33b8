-- ===== src/Recorder/Queue.antt =====
-- The two queries of the dead-letter queue: ListFailed and FindLatestFailed of
-- internal/repository/workflowinstance.go, and the endpoint that lists it.
use tenantflow.Prelude.{
  ℕ, Text, Bool, false, List, [], ◌∷◌, Option, none, some, take, ◌&&◌, text_eq, if◌then◌else◌,
}
use tenantflow.World.{Result, ok, err, not_found, other}
use tenantflow.Repository.{newest_first, matching}
use tenantflow.Recorder.{Instance}

-- WHERE status = 'failed'
abbrev pub is_failed : Instance → Bool
is_failed i = i.has_failed

-- tenant_id = $1: a NULL is equal to nothing.
abbrev pub of_tenant : Text → Option Text → Bool
of_tenant id none = false
of_tenant id (some t) = text_eq t id

-- WHERE status = 'failed' AND tenant_id = $1 AND workflow_type = $2
abbrev pub is_failed_of : Text → Text → Instance → Bool
is_failed_of id kind i = i.has_failed && (of_tenant id i.tenant_id && text_eq i.workflow_type kind)

unfoldable pub failed_rows : ℕ → List Instance → List Instance
failed_rows limit rows = take limit (newest_first (λ i. i.started_at) (matching is_failed rows))

unfoldable pub latest_of : List Instance → Option Instance
latest_of [] = none
latest_of (i ∷ is) = some i

unfoldable pub latest_failed : Text → Text → List Instance → Option Instance
unfolding latest_of
latest_failed id kind rows =
    latest_of (newest_first (λ i. i.started_at) (matching (is_failed_of id kind) rows))

-- The query's answer; `answers` tells whether the database answers.
unfoldable pub list_failed : Bool → ℕ → List Instance → Result (List Instance)
unfolding failed_rows
list_failed answers limit rows = if answers then ok (failed_rows limit rows) else err other

abbrev pub or_no_rows : Option Instance → Result Instance
or_no_rows none = err not_found
or_no_rows (some i) = ok i

unfoldable pub find_latest_failed : Bool → Text → Text → List Instance → Result Instance
unfolding latest_failed
find_latest_failed answers id kind rows =
    if answers then or_no_rows (latest_failed id kind rows) else err other
