-- ===== src/Jobs/Stage/Laws.antt =====
-- Completion, terminal routing, and the guarantee that a stored result is never paid for again.
use cloudtalk_tech_task.Base.{
  String, Bool, true, false, List, [], ◌∷◌, ◌&&◌, map, str_eq, ℕ, none, some, ◌≡◌, refl, ◌⊎◌, inl,
  inr, arith, Option-cases, Bool-cases, if◌then◌else◌,
}
use cloudtalk_tech_task.Kernel.Value.{Value}
use cloudtalk_tech_task.Kernel.Retry.{RetryDecision, classify_retry}
use cloudtalk_tech_task.Kernel.Laws.Classify.{classify_retry-reason_ne}
use cloudtalk_tech_task.Sql.{first_where, update_where}
use cloudtalk_tech_task.Sql.Laws.{
  first_where_sound, first_where-update_hit, first_where-update_miss,
}
use cloudtalk_tech_task.Sql.Io.{Io, World, Outcome, ok, threw, settle, continue}
use cloudtalk_tech_task.Jobs.Store.{
  StageStatus, Contract, InstanceRow, Db, is_instance, stage_status_eq, set_column,
}
use cloudtalk_tech_task.Jobs.DeadLetter.{DeadLetterRecord, pool}
use cloudtalk_tech_task.Jobs.DeadLetter.Laws.{
  dead_lettered, write_dead_letter_lem, dead_lettered-failed, set_column_self,
}
use cloudtalk_tech_task.Jobs.Stage.{
  StageRunOutcome, completed, already_failed, complete_update, complete_read, complete_by_status,
  complete_stage, route_failure, perform_external_call_with_routing, no_instance_row,
}

abbrev pub busy : StageStatus → Bool
busy StageStatus.pending = false
busy StageStatus.in_progress = true
busy StageStatus.completed = false
busy StageStatus.failed = false

-- The instance's row, completed at the present time if it was in progress; every other row, and
-- every other stage of the row, is as it was.
abbrev pub done_row : String → String → ℕ → InstanceRow → InstanceRow
done_row stage id now r =
    if str_eq r.instance_id id && busy (r.status stage)
    then record {
      instance_id = r.instance_id;
      status = λ s. if str_eq stage s then StageStatus.completed else r.status s;
      attempts = r.attempts;
      updated_at = λ s. if str_eq stage s then now else r.updated_at s;
    }
    else r

-- The database of a completion: only the instances differ.
abbrev pub done : {Json : Type 0} → String → String → Db Json → Db Json
done stage id db = record {
  now = db.now;
  instances = map (done_row stage id db.now) db.instances;
  branches = db.branches;
  stage_results = db.stage_results;
  dead_letters = db.dead_letters;
}

in_progress-busy : (s : StageStatus) → stage_status_eq s StageStatus.in_progress ≡ busy s
in_progress-busy StageStatus.pending = refl
in_progress-busy StageStatus.in_progress = refl
in_progress-busy StageStatus.completed = refl
in_progress-busy StageStatus.failed = refl

update_where-done_row :
    (stage id : String) (now : ℕ) (rows : List InstanceRow)
    → update_where
        (λ r. is_instance id r && stage_status_eq (r.status stage) StageStatus.in_progress)
        (λ r. record r {
          status = set_column r.status stage StageStatus.completed;
          updated_at = set_column r.updated_at stage now;
        })
        rows
      ≡ map (done_row stage id now) rows
update_where-done_row stage id now [] = refl
update_where-done_row stage id now (r ∷ rows) =
    rw (in_progress-busy (r.status stage), update_where-done_row stage id now rows) refl

complete_update-done :
    {Json : Type 0} (stage id : String) (db : Db Json)
    → complete_update id stage db ≡ done stage id db
unfolding complete_update
complete_update-done stage id db = rw (update_where-done_row stage id db.now db.instances) refl

module _ {Json E : Type 0} (stage id : String) (in_transaction : Io (Db Json) E (Unit {0})) where
  -- What a completion leaves, from the outcome of the domain writes on the database `before`.
  abbrev pub after_writes :
      Db Json → Outcome (Unit {0}) × World (Db Json) E → Outcome StageRunOutcome × World (Db Json) E
  after_writes before (ok u, w) = (ok completed, record { db = done stage id w.db; ext = w.ext })
  after_writes before (threw e, w) = (threw e, record { db = before; ext = w.ext })

  abbrev pub complete_spec :
      StageStatus → World (Db Json) E → Outcome StageRunOutcome × World (Db Json) E
  complete_spec StageStatus.failed w = (ok already_failed, w)
  complete_spec _ w = after_writes w.db (in_transaction w)

  after_writes_lem :
      (before : Db Json) (p : Outcome (Unit {0}) × World (Db Json) E)
      → settle before
          (continue p (λ _ w. (ok completed, record w { db = complete_update id stage w.db })))
        ≡ after_writes before p
  after_writes_lem before (ok u, w) = rw (complete_update-done stage id w.db) refl
  after_writes_lem before (threw e, w) = refl

  complete_by_status_lem :
      (s : StageStatus) (w : World (Db Json) E)
      → settle w.db (complete_by_status stage id in_transaction s w) ≡ complete_spec s w
  unfolding complete_by_status
  complete_by_status_lem StageStatus.failed w = refl
  complete_by_status_lem _ w = after_writes_lem w.db (in_transaction w)

  -- A completion with no row is a NotFoundError, and of a failed stage does nothing at all; of
  -- any other it runs the domain writes, and then makes the stage completed at the present
  -- time if it is in progress on the database that they leave, and changes no other row, stage
  -- or table; a throw of the domain writes undoes what they wrote and goes on.
  pub complete_stage_lem :
      (contract : Contract) (w : World (Db Json) E)
      → complete_stage contract stage id in_transaction w
        ≡ elim (first_where (is_instance id) w.db.instances) [
          | none ↦ (threw (no_instance_row "completeStage" contract stage id), w)
          | some row ↦ complete_spec (row.status stage) w
        ]
  unfolding complete_stage
  complete_stage_lem contract w =
      elim (Option-cases (first_where (is_instance id) w.db.instances)) [
        | inl e ↦ rw (e, complete_read)
        | inr (row, e) ↦ rw (e, complete_read) (complete_by_status_lem (row.status stage) w)
      ]

-- After the guarded flip, the instance's stage is completed if it was in progress, and is what
-- it was otherwise.
pub complete_update_lem :
    {Json : Type 0} (stage id : String) (db : Db Json) {row : InstanceRow}
    → first_where (is_instance id) db.instances ≡ some row
    → (row' : InstanceRow) × (first_where (is_instance id) (complete_update id stage db).instances
        ≡ some row')
      × (row'.status stage ≡ (
          if stage_status_eq (row.status stage) StageStatus.in_progress
          then StageStatus.completed
          else row.status stage))
unfolding complete_update
complete_update_lem stage id db {row} h =
    elim (Bool-cases (stage_status_eq (row.status stage) StageStatus.in_progress)) [
      | inl busy ↦ (
        _,
        first_where-update_hit (is_instance id) _ _ db.instances (λ y. refl) h
            (ground (arith, busy, first_where_sound (is_instance id) db.instances h)),
        rw busy (set_column_self row.status stage StageStatus.completed),
      )
      | inr idle ↦ (
        row,
        first_where-update_miss (is_instance id) _ _ db.instances (λ y. refl) h
            (ground (arith, idle)),
        rw idle refl,
      )
    ]

decision-cases : (d : RetryDecision) → (d ≡ RetryDecision.retry) ⊎ (d ≡ RetryDecision.terminal)
decision-cases d = ground arith

module _ {Json E R : Type 0} (contract : Contract) (with_reason : String → DeadLetterRecord Json)
    (perform : Io (Db Json) E R) where
  -- A failure of the external call comes back as it was thrown; if its classification is
  -- terminal, the dead letter with the classification's reason has been committed before.
  pub perform_external_call_with_routing_lem :
      (w w' : World (Db Json) E) (e : Value)
      → ((reason : String) → (with_reason reason).reason ≡ reason)
      → perform w ≡ (threw e, w')
      → perform_external_call_with_routing contract with_reason perform w
        ≡ elim (classify_retry e).decision [
          | RetryDecision.retry ↦ (threw e, w')
          | RetryDecision.terminal ↦ (
            threw e,
            record w' { db = dead_lettered contract (with_reason (classify_retry e).reason) w'.db },
          )
        ]
  unfolding perform_external_call_with_routing
  perform_external_call_with_routing_lem w w' e carried h =
      rw h (elim (decision-cases (classify_retry e).decision) [
        | inl retried ↦ rw (retried, route_failure)
        | inr given_up ↦ rw (
          given_up,
          route_failure,
          write_dead_letter_lem pool contract (with_reason (classify_retry e).reason) w'
              (rw (carried (classify_retry e).reason) (classify_retry-reason_ne e)),
        )
      ])

  -- A terminal failure of the external call leaves the stage failed even where it was
  -- completed when the call came back.
  pub perform_external_call_with_routing-demotes :
      (w w' : World (Db Json) E) (e : Value) {row : InstanceRow}
      → ((reason : String) → (with_reason reason).reason ≡ reason)
      → perform w ≡ (threw e, w')
      → (classify_retry e).decision ≡ RetryDecision.terminal
      → first_where
          (is_instance (with_reason (classify_retry e).reason).instance_id)
          w'.db.instances
        ≡ some row
      → row.status (with_reason (classify_retry e).reason).stage ≡ StageStatus.completed
      → (row' : InstanceRow) × (first_where
            (is_instance (with_reason (classify_retry e).reason).instance_id)
            (perform_external_call_with_routing contract with_reason perform w).1.db.instances
          ≡ some row')
        × (row'.status (with_reason (classify_retry e).reason).stage ≡ StageStatus.failed)
  perform_external_call_with_routing-demotes w w' e carried h given_up there was =
      rw (perform_external_call_with_routing_lem w w' e carried h, given_up)
        (dead_lettered-failed contract (with_reason (classify_retry e).reason) w'.db there)
