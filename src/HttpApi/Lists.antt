-- ===== src/HttpApi/Lists.antt =====
-- The listing of internal/httpapi/httpapi.go, by status.
use mathlib.Core.Path.{subst}
use chronos_engine.Prelude.{
  ℤ, pos, pos_part, ltb_ℤ, leb_ℤ, none, some, List, map, All, select, take, drop, Bool, true, false,
  ◌≡◌, sym, ap, ◌∙◌, if◌then◌else◌,
}
use chronos_engine.Messages.{WorkflowStatus}
use chronos_engine.Store.Tables.{Execution, Db}
use chronos_engine.Store.Monad.{order_by}
use chronos_engine.Store.Queries.{
  is_status_path, All-select, All-order_by, All-take, All-drop, All-map,
}
use chronos_engine.Store.Workflows.{
  is_status, Scan, scan_execution, list_workflows, page_limit, matches_filter,
}
use chronos_engine.HttpApi.{status_name}
use chronos_engine.HttpApi.Names.{parse_status-status_name}
use chronos_engine.HttpApi.Events.{ExecutionDto, to_execution_dto}
use chronos_engine.HttpApi.Handlers.{workflows, Response, list_handler, listed}

filtered :
    (s : WorkflowStatus) (e : Execution)
    → is_status s WorkflowStatus.unspecified ≡ false
    → matches_filter s e ≡ true
    → e.status ≡ s
filtered WorkflowStatus.unspecified e h k = cc
filtered WorkflowStatus.running e h k = is_status_path e.status WorkflowStatus.running k
filtered WorkflowStatus.completed e h k = is_status_path e.status WorkflowStatus.completed k
filtered WorkflowStatus.failed e h k = is_status_path e.status WorkflowStatus.failed k
filtered WorkflowStatus.timed_out e h k = is_status_path e.status WorkflowStatus.timed_out k
filtered WorkflowStatus.terminated e h k = is_status_path e.status WorkflowStatus.terminated k

abbrev Shows : WorkflowStatus → ExecutionDto → Type 0
Shows s d = d.status ≡ status_name s

shown :
    (s : WorkflowStatus) (es : List Execution)
    → All (λ e. e.status ≡ s) es
    → All (Shows s) (map to_execution_dto (map scan_execution es))
unfolding to_execution_dto scan_execution
shown s es h =
    All-map (λ v. v.status ≡ s) (Shows s) to_execution_dto (λ v k. ap status_name k)
      (map scan_execution es)
      (All-map (λ e. e.status ≡ s) (λ v. v.status ≡ s) scan_execution (λ e k. k) es h)

page_of : Bool → List Execution → Response
page_of negative rows = listed (if negative then none else some (map scan_execution rows))

page_shown :
    (s : WorkflowStatus) (negative : Bool) (rows : List Execution) (ds : List ExecutionDto)
    → All (λ e. e.status ≡ s) rows
    → page_of negative rows ≡ record { code = 200; body = workflows ds }
    → All (Shows s) ds
unfolding page_of
page_shown s true rows ds h e = cc
page_shown s false rows ds h e =
    let same : map to_execution_dto (map scan_execution rows) ≡ ds = cc in
    subst (All (Shows s)) same (shown s rows h)

-- A listing Shows what was asked for: where `/api/workflows` answers a request with a status filter, one of the
-- five status names, with 200 and a list, every execution of the list has that status, whatever the limit and the offset.
pub list_filtered :
    (scan : Scan) (s : WorkflowStatus) (limit offset : ℤ) (db : Db) (ds : List ExecutionDto)
    → is_status s WorkflowStatus.unspecified ≡ false
    → list_handler scan (status_name s) limit offset db ≡ record { code = 200; body = workflows ds }
    → All (λ d. d.status ≡ status_name s) ds
unfolding list_handler list_workflows page_of
list_filtered scan s limit offset db ds known h =
    let rows =
      order_by (λ a b. leb_ℤ b.start_time a.start_time)
        (select (matches_filter s) (scan db.executions)) in
    page_shown s (ltb_ℤ offset (pos 0)) (take (page_limit limit) (drop (pos_part offset) rows)) ds
      (All-take (λ e. e.status ≡ s) (page_limit limit) (drop (pos_part offset) rows)
        (All-drop (λ e. e.status ≡ s) (pos_part offset) rows
          (All-order_by (λ e. e.status ≡ s) _ (select (matches_filter s) (scan db.executions))
            (All-select (λ e. e.status ≡ s) (matches_filter s) (λ e. filtered s e known)
              (scan db.executions)))))
      (sym (ap (λ w. listed (list_workflows scan w limit offset db)) (parse_status-status_name s))
        ∙ h)
