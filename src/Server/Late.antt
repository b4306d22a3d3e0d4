-- ===== src/Server/Late.antt =====
-- Late answers of workers, in internal/server/server.go.
use chronos_engine.Prelude.{ℕ, String, Option, Bool, ◌≡◌, refl}
use chronos_engine.Messages.{Bytes, Time, Failure}
use chronos_engine.Core.{Float64}
use chronos_engine.Store.Tables.{Db}
use chronos_engine.Store.Monad.{ok}
use chronos_engine.Store.Activities.{complete_activity_task}
use chronos_engine.Store.Answers.{complete-IsGone, complete_gone, fail_gone}
use chronos_engine.Server.{
  Metrics, replies, settle, respond_activity_task_completed, respond_activity_task_failed,
}

-- Once the completion of an activity task has been committed, a further answer for its token, a completion or
-- a failure, of whichever worker, gets a reply without an error and changes neither the database nor a counter.
pub late_answer-benign :
    (fl : Float64) (token : ℕ) (identity : String) (result : Bytes) (now : Time) (db : Db)
    (u : Unit {0}) (db' : Db) (other : String) (again : Bytes) (later : Time) (f : Option Failure)
    (retryable : Bool) (m : Metrics)
    → complete_activity_task token identity result now db ≡ ok (u, db')
    → (respond_activity_task_completed token other again later m db'
        ≡ record { reply = replies tt; metrics = m; db = db' })
      × (respond_activity_task_failed fl token other f retryable later m db'
          ≡ record { reply = replies tt; metrics = m; db = db' })
unfolding respond_activity_task_completed respond_activity_task_failed settle
late_answer-benign fl token identity result now db u db' other again later f retryable m h =
    let gone = complete-IsGone token identity result now db u db' h in
    (
      rw (complete_gone token other again later db' gone) refl,
      rw (fail_gone fl token other f retryable later db' gone) refl,
    )
