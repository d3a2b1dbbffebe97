-- ===== src/Jobs/ReconcilePass.antt =====
-- packages/jobs/src/reconciler.ts: the stale branches, the missed joins, and the whole pass.
use cloudtalk_tech_task.Base.{
  ℕ, ◌+◌, String, Bool, true, false, Option, none, some, List, [], ◌∷◌, ◌&&◌, ◌&◌, not, map, any,
  str_eq,
}
use cloudtalk_tech_task.Sql.{select_where, first_where, update_where}
use cloudtalk_tech_task.Sql.Io.{Io, World, Outcome, ok, threw}
use cloudtalk_tech_task.Jobs.Store.{
  BranchStatus, BranchKind, owned, delegated, Contract, InstanceRow, BranchRow, Db,
  branch_status_id, branch_status_eq, branch_kind_eq, is_branch, is_stage_branch, is_pending,
}
use cloudtalk_tech_task.Jobs.Stage.{is_open}
use cloudtalk_tech_task.Jobs.Reconciler.{
  Call, ReconcilerStageBinding, Reclaimed, StaleUnitReconcile, Tally, no_tally, add_tally,
  one_healed, one_failed, reconcile_stale_units, older_than, remove_then_enqueue,
  reconcile_stale_stages,
}

pub record StaleBranch : Type 0 where
  pub instance_id : String
  pub branch_key : String

-- What other connections commit before the locks of the units.
pub record Elsewhere (Json : Type 0) : Type 0 where
  pub at_stage : String → Db Json → Db Json
  pub at_branch : StaleBranch → Db Json → Db Json

abbrev pub kind_name : Bool → String
kind_name true = "owned"
kind_name false = "delegated"

module _ {Json E : Type 0} (contract : Contract) (binding : ReconcilerStageBinding Json E)
    (stale_after_ms : ℕ) where
  abbrev pub stage : String
  stage = binding.stage

  abbrev pub stale_branch : BranchKind → ℕ → BranchRow → Bool
  stale_branch kind now r =
      str_eq r.stage stage
      && branch_kind_eq r.kind kind
      && is_pending r
      && older_than now stale_after_ms r.updated_at

  abbrev pub stale_branches : BranchKind → Db Json → List StaleBranch
  stale_branches kind db =
      map (λ (r : BranchRow). record { instance_id = r.instance_id; branch_key = r.branch_key })
        (select_where (stale_branch kind db.now) db.branches)

  abbrev pub reclaimed_branch : ℕ → Option BranchRow → Option Reclaimed
  reclaimed_branch now none = none
  reclaimed_branch now (some r) = some (record {
    status_id = branch_status_id r.status;
    attempts = r.attempts;
    is_stale = older_than now stale_after_ms r.updated_at;
  })

  -- `redrive` is undefined for a delegated branch
  abbrev pub branch_redrive : Bool → Option (StaleBranch → Call E)
  branch_redrive true = some (λ stale.
      remove_then_enqueue contract binding stale_after_ms stale.instance_id (some stale.branch_key))
  branch_redrive false = none

  abbrev pub branch_units : Bool → StaleUnitReconcile Json E StaleBranch
  branch_units redrive = record {
    open_status_id = branch_status_id BranchStatus.pending;
    reclaim = λ db stale.
        reclaimed_branch db.now
          (first_where (is_branch stale.instance_id stage stale.branch_key) db.branches);
    age = λ stale db. record db {
      branches =
          update_where (is_branch stale.instance_id stage stale.branch_key)
            (λ r. record r { attempts = r.attempts + 1; updated_at = db.now }) db.branches;
    };
    dead_letter_record = λ stale attempts. record {
      instance_id = stale.instance_id;
      stage = stage;
      branch_key = some stale.branch_key;
      reason = "reconciler: attempts ceiling reached while stale (" & kind_name redrive & ")";
      attempts = attempts;
      payload = none;
    };
    redrive = branch_redrive redrive;
  }

  unfoldable pub reconcile_stale_branches :
      (StaleBranch → Db Json → Db Json)
      → ℕ
      → BranchKind
      → Bool
      → World (Db Json) E
      → Tally × World (Db Json) E
  unfolding reconcile_stale_units
  reconcile_stale_branches elsewhere ceiling kind redrive w =
      reconcile_stale_units contract ceiling (branch_units redrive) elsewhere
        (stale_branches kind w.db) w

  -- the WHERE clause of the missed joins
  abbrev pub is_missed_join : Db Json → InstanceRow → Bool
  is_missed_join db r =
      is_open (r.status stage)
      && older_than db.now stale_after_ms (r.updated_at stage)
      && any (is_stage_branch r.instance_id stage) db.branches
      && not (
          any
            (λ b.
              is_stage_branch r.instance_id stage b
              && not (branch_status_eq b.status BranchStatus.completed))
            db.branches)

  abbrev pub missed_joins : Db Json → List String
  missed_joins db =
      map (λ (r : InstanceRow). r.instance_id) (select_where (is_missed_join db) db.instances)

  abbrev pub heal_tally : Outcome (Unit {0}) × World (Db Json) E → Tally × World (Db Json) E
  heal_tally (ok u, w) = (one_healed, w)
  heal_tally (threw e, w) = (one_failed, w)

  unfoldable pub heal_each :
      (String → Io (Db Json) E (Unit {0}))
      → List String
      → World (Db Json) E
      → Tally × World (Db Json) E
  heal_each on_join_completed [] w = (no_tally, w)
  heal_each on_join_completed (id ∷ ids) w =
      let one = heal_tally (on_join_completed id w) in
      let rest = heal_each on_join_completed ids one.1 in (add_tally one.0 rest.0, rest.1)

  unfoldable pub heal_missed_joins : World (Db Json) E → Tally × World (Db Json) E
  unfolding heal_each
  heal_missed_joins w = elim binding.on_join_completed [
    | none ↦ (no_tally, w)
    | some on_join_completed ↦ heal_each on_join_completed (missed_joins w.db) w
  ]

  -- The four steps of a pass for one stage.
  unfoldable pub reconcile_stage :
      Elsewhere Json → ℕ → World (Db Json) E → Tally × World (Db Json) E
  unfolding reconcile_stale_branches heal_missed_joins
  reconcile_stage elsewhere ceiling w =
      let stale =
        reconcile_stale_stages contract binding stale_after_ms elsewhere.at_stage ceiling w in
      let mine = reconcile_stale_branches elsewhere.at_branch ceiling owned true stale.1 in
      let theirs = reconcile_stale_branches elsewhere.at_branch ceiling delegated false mine.1 in
      let joins = heal_missed_joins theirs.1 in
      (add_tally stale.0 (add_tally mine.0 (add_tally theirs.0 joins.0)), joins.1)

unfoldable pub reconcile_pipeline :
    {Json E : Type 0}
    → Contract
    → Elsewhere Json
    → List (ReconcilerStageBinding Json E)
    → ℕ
    → ℕ
    → World (Db Json) E
    → Tally × World (Db Json) E
unfolding reconcile_stage
reconcile_pipeline contract elsewhere [] stale_after_ms ceiling w = (no_tally, w)
reconcile_pipeline contract elsewhere (binding ∷ bindings) stale_after_ms ceiling w =
    let one = reconcile_stage contract binding stale_after_ms elsewhere ceiling w in
    let rest = reconcile_pipeline contract elsewhere bindings stale_after_ms ceiling one.1 in
    (add_tally one.0 rest.0, rest.1)
