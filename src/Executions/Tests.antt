-- ===== src/Executions/Tests.antt =====
-- Concrete histories of backend/app/execution_store.py.
use ap2web.Executions.Store.{ExecutionEvent, finish, get, start}
use ap2web.Executions.History.{IsBalanced, Run, Run-IsBalanced, Run-append, Step}
use ap2web.Prelude.{List, [], arith, codes, none, ◌++◌, ◌≡◌}

abbrev begun : List ExecutionEvent
begun = (start (codes "id") 1 (codes "backtest") (codes "hash") (codes "{}") none []).1

abbrev ended : List ExecutionEvent
ended = (finish 2 (codes "id") (codes "ok") (codes "artifact") (codes "{}") begun).1

history : Run [] ended
history =
    Run.next
      (Run.next Run.here
        (Step.starts (codes "id") 1 (codes "backtest") (codes "hash") (codes "{}") none))
      (Step.finishes 2 (codes "id") (codes "ok") (codes "artifact") (codes "{}"))

empty-IsBalanced : IsBalanced []
unfolding get
empty-IsBalanced eid = omega arith

Run-IsBalanced_example : IsBalanced ended
Run-IsBalanced_example = Run-IsBalanced history empty-IsBalanced

Run-append_example : (behind : List ExecutionEvent) × (ended ≡ [] ++ behind)
Run-append_example = Run-append history
