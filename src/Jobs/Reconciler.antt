-- ===== src/Jobs/Reconciler.antt =====
-- packages/jobs/src/reconciler.ts: one scan pass. A unit's transaction is one step, since it
-- takes the instance's advisory lock first. `remove` and `enqueue` act on the queue, which is part
-- of the world outside the database. The units of one scan run one after
-- another, in the order of the SELECT; what other connections commit between the SELECT and the
-- lock of a unit is the parameter `elsewhere`. Counters and logs are left out.
pub mod Units
pub mod Stages
pub mod Scan
use cloudtalk_tech_task.Base.{
  ℕ, ◌+◌, String, Bool, Option, none, some, List, [], ◌∷◌, ◌==◌, ltb, ◌&&◌, ◌&◌, not, map,
  if◌then◌else◌,
}
use cloudtalk_tech_task.Sql.{select_where, first_where, update_where}
use cloudtalk_tech_task.Sql.Io.{
  ◌>>=◌, Io, World, Outcome, ok, threw, continue, return, query, execute, transaction, ◌>>◌,
}
use cloudtalk_tech_task.Jobs.Store.{
  StageStatus, Contract, InstanceRow, Db, stage_status_id, stage_status_eq, set_column, is_instance,
}
use cloudtalk_tech_task.Jobs.Attempts.{attempts_exhausted}
use cloudtalk_tech_task.Jobs.DeadLetter.{DeadLetterRecord, trx, write_dead_letter}

-- A call that does not reach the database.
abbrev pub Call : Type 0 → Type 0
Call E = E → Outcome (Unit {0}) × E

pub record ReconcilerStageBinding (Json E : Type 0) : Type 0 where
  pub stage : String
  pub enqueue : String → Option String → Call E
  pub remove : String → Option String → Call E
  pub on_join_completed : Option (String → Io (Db Json) E (Unit {0}))

pub record Reclaimed : Type 0 where
  pub status_id : ℕ
  pub attempts : ℕ
  pub is_stale : Bool

pub data UnitOutcome : Type 0 where
  gone already_moved reclaimed_elsewhere dead_lettered aged : UnitOutcome

pub record StaleUnitReconcile (Json E Unit' : Type 0) : Type 0 where
  pub open_status_id : ℕ
  pub reclaim : Db Json → Unit' → Option Reclaimed
  pub age : Unit' → Db Json → Db Json
  pub dead_letter_record : Unit' → ℕ → DeadLetterRecord Json
  pub redrive : Option (Unit' → Call E)

pub record Tally : Type 0 where
  pub redriven : ℕ
  pub healed : ℕ
  pub dead_lettered : ℕ
  pub failed : ℕ

abbrev pub no_tally : Tally
no_tally = record { redriven = 0; healed = 0; dead_lettered = 0; failed = 0 }

abbrev pub add_tally : Tally → Tally → Tally
add_tally a b = record {
  redriven = a.redriven + b.redriven;
  healed = a.healed + b.healed;
  dead_lettered = a.dead_lettered + b.dead_lettered;
  failed = a.failed + b.failed;
}

abbrev pub one_redriven : Tally
one_redriven = record no_tally { redriven = 1 }

abbrev pub one_healed : Tally
one_healed = record no_tally { healed = 1 }

abbrev pub one_dead_lettered : Tally
one_dead_lettered = record no_tally { dead_lettered = 1 }

abbrev pub one_failed : Tally
one_failed = record no_tally { failed = 1 }

module _ {Json E : Type 0} where
  -- a call outside the database, as a step of the program
  abbrev pub outside : Call E → Io (Db Json) E (Unit {0})
  outside call w = ((call w.ext).0, record w { ext = (call w.ext).1 })

module _ {Json E Unit' : Type 0} (contract : Contract) (ceiling : ℕ)
    (spec : StaleUnitReconcile Json E Unit') where
  -- The checks of a unit under its lock, then the ceiling.
  unfoldable pub unit_current : Unit' → Option Reclaimed → Io (Db Json) E UnitOutcome
  unit_current unit none = return gone
  unit_current unit (some current) =
      if not (current.status_id == spec.open_status_id)
      then return already_moved
      else if not current.is_stale
      then return reclaimed_elsewhere
      else if attempts_exhausted current.attempts ceiling
      then (write_dead_letter trx contract (spec.dead_letter_record unit current.attempts)
          >> return dead_lettered)
      else (execute (spec.age unit) >> return aged)

  unfoldable pub unit_transaction : Unit' → Io (Db Json) E UnitOutcome
  unfolding unit_current
  unit_transaction unit =
      transaction do current ← query (λ db. spec.reclaim db unit); unit_current unit current

  -- what follows the unit's transaction
  unfoldable pub unit_redrive : Unit' → Option (Unit' → Call E) → Io (Db Json) E Tally
  unit_redrive unit none = return no_tally
  unit_redrive unit (some redrive) = do outside (redrive unit); return one_redriven

  unfoldable pub unit_after : Unit' → UnitOutcome → Io (Db Json) E Tally
  unfolding unit_redrive
  unit_after unit dead_lettered = return one_dead_lettered
  unit_after unit aged = unit_redrive unit spec.redrive
  unit_after unit _ = return no_tally

  abbrev pub tally_of : Outcome Tally × World (Db Json) E → Tally × World (Db Json) E
  tally_of (ok t, w) = (t, w)
  tally_of (threw e, w) = (one_failed, w)

  -- One unit: whatever it throws is caught and counted.
  unfoldable pub reconcile_unit : Unit' → World (Db Json) E → Tally × World (Db Json) E
  unfolding unit_transaction unit_after
  reconcile_unit unit w = tally_of (continue (unit_transaction unit w) (unit_after unit))

  -- `elsewhere unit` is what other connections commit before the unit's lock is taken, after the
  -- lock of the unit before it or the scan's SELECT.
  unfoldable pub reconcile_stale_units :
      (Unit' → Db Json → Db Json) → List Unit' → World (Db Json) E → Tally × World (Db Json) E
  unfolding reconcile_unit
  reconcile_stale_units elsewhere [] w = (no_tally, w)
  reconcile_stale_units elsewhere (unit ∷ units) w =
      let one = reconcile_unit unit (record w { db = elsewhere unit w.db }) in
      let rest = reconcile_stale_units elsewhere units one.1 in (add_tally one.0 rest.0, rest.1)

-- updated_at < now() - staleAfterMs
abbrev pub older_than : ℕ → ℕ → ℕ → Bool
older_than now stale_after_ms updated_at = ltb (updated_at + stale_after_ms) now

module _ {Json E : Type 0} (contract : Contract) (binding : ReconcilerStageBinding Json E)
    (stale_after_ms : ℕ) where
  abbrev pub stage : String
  stage = binding.stage

  abbrev pub remove_then_enqueue : String → Option String → Call E
  remove_then_enqueue id key ext = elim (binding.remove id key ext).0 [
    | ok u ↦ binding.enqueue id key (binding.remove id key ext).1
    | threw e ↦ (threw e, (binding.remove id key ext).1)
  ]

  abbrev pub stale_stage : ℕ → InstanceRow → Bool
  stale_stage now r =
      stage_status_eq (r.status stage) StageStatus.in_progress
      && older_than now stale_after_ms (r.updated_at stage)

  -- the SELECT of the stale stages
  abbrev pub stale_stage_ids : Db Json → List String
  stale_stage_ids db =
      map (λ (r : InstanceRow). r.instance_id) (select_where (stale_stage db.now) db.instances)

  abbrev pub reclaimed_stage : ℕ → Option InstanceRow → Option Reclaimed
  reclaimed_stage now none = none
  reclaimed_stage now (some r) = some (record {
    status_id = stage_status_id (r.status stage);
    attempts = r.attempts stage;
    is_stale = older_than now stale_after_ms (r.updated_at stage);
  })

  abbrev pub aged_stage : ℕ → InstanceRow → InstanceRow
  aged_stage now r = record r {
    attempts = set_column r.attempts stage (r.attempts stage + 1);
    updated_at = set_column r.updated_at stage now;
  }

  abbrev pub stage_units : StaleUnitReconcile Json E String
  stage_units = record {
    open_status_id = stage_status_id StageStatus.in_progress;
    reclaim = λ db id. reclaimed_stage db.now (first_where (is_instance id) db.instances);
    age = λ id db. record db {
      instances = update_where (is_instance id) (aged_stage db.now) db.instances;
    };
    dead_letter_record = λ id attempts. record {
      instance_id = id;
      stage = stage;
      branch_key = none;
      reason = "reconciler: attempts ceiling reached while in_progress";
      attempts = attempts;
      payload = none;
    };
    redrive = some (λ id. remove_then_enqueue id none);
  }

  unfoldable pub reconcile_stale_stages :
      (String → Db Json → Db Json) → ℕ → World (Db Json) E → Tally × World (Db Json) E
  unfolding reconcile_stale_units
  reconcile_stale_stages elsewhere ceiling w =
      reconcile_stale_units contract ceiling stage_units elsewhere (stale_stage_ids w.db) w
