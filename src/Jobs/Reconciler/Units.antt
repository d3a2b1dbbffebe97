-- ===== src/Jobs/Reconciler/Units.antt =====
-- One stale stage under its lock, on every branch.
use cloudtalk_tech_task.Base.{
  ℕ, ◌+◌, ◌≤◌, String, Option, none, some, List, [], ◌∷◌, ◌≡◌, refl, ◌≢◌, inl, inr, ◌==◌, leb,
  leb→le, arith, eq_iff, if◌then◌else◌, length, Bool-cases, Option-cases,
}
use cloudtalk_tech_task.Sql.{first_where, update_where}
use cloudtalk_tech_task.Sql.Io.{World, Outcome, ok, threw, continue, settle}
use cloudtalk_tech_task.Jobs.Store.{Contract, InstanceRow, Db, is_instance, stage_status_id}
use cloudtalk_tech_task.Jobs.Attempts.{attempts_exhausted-true, attempts_exhausted-false}
use cloudtalk_tech_task.Jobs.DeadLetter.{trx}
use cloudtalk_tech_task.Jobs.DeadLetter.Laws.{dead_lettered, write_dead_letter_lem}
use cloudtalk_tech_task.Jobs.Reconciler.{
  ReconcilerStageBinding, StaleUnitReconcile, UnitOutcome, Tally, no_tally, one_redriven,
  one_dead_lettered, one_failed, unit_current, unit_transaction, unit_after, tally_of,
  reconcile_unit, reconcile_stale_units, stale_stage, stage_units, remove_then_enqueue, aged_stage,
  reclaimed_stage, older_than,
}

abbrev pub total : Tally → ℕ
total t = t.redriven + t.healed + t.dead_lettered + t.failed

module _ {Json E Unit' : Type 0} (contract : Contract) (ceiling : ℕ)
    (spec : StaleUnitReconcile Json E Unit') where
  unit_after-total :
      (unit : Unit') (o : UnitOutcome) (w : World (Db Json) E)
      → total (tally_of contract ceiling spec (unit_after contract ceiling spec unit o w)).0 ≤ 1
  unfolding unit_after
  unit_after-total unit o w = ground arith

  settled-total :
      (unit : Unit') (p : Outcome UnitOutcome × World (Db Json) E)
      → total
          (tally_of contract ceiling spec (continue p (unit_after contract ceiling spec unit))).0
        ≤ 1
  settled-total unit (ok o, w) = unit_after-total unit o w
  settled-total unit (threw e, w) = omega arith

  -- A scan counts each of its units at most once, whatever its callbacks throw.
  pub reconcile_stale_units-total :
      (elsewhere : Unit' → Db Json → Db Json) (units : List Unit') (w : World (Db Json) E)
      → total (reconcile_stale_units contract ceiling spec elsewhere units w).0 ≤ length units
  unfolding reconcile_stale_units
  reconcile_stale_units-total elsewhere [] w = omega arith
  reconcile_stale_units-total elsewhere (unit ∷ units) w =
      let met : World (Db Json) E = record w { db = elsewhere unit w.db } in
      omega (
        arith,
        settled-total unit (unit_transaction contract ceiling spec unit met),
        reconcile_stale_units-total elsewhere units
            (reconcile_unit contract ceiling spec unit met).1,
      )

reconcile_literal-ne : ◌≢◌ {A = String} "reconciler: attempts ceiling reached while in_progress" ""
reconcile_literal-ne =
    ground (arith, eq_iff "reconciler: attempts ceiling reached while in_progress" "")

module _ {Json E : Type 0} (contract : Contract) (binding : ReconcilerStageBinding Json E)
    (stale_after_ms ceiling : ℕ) where
  abbrev pub age_db : String → Db Json → Db Json
  age_db id db = record db {
    instances =
        update_where (is_instance id) (aged_stage contract binding stale_after_ms db.now)
          db.instances;
  }

  -- What the calls to the queue make of the count.
  abbrev pub redriven : Outcome (Unit {0}) → Tally
  redriven (ok u) = one_redriven
  redriven (threw e) = one_failed

  -- What a scan does to a stage, from its row alone.
  abbrev pub stage_spec :
      String → Option InstanceRow → World (Db Json) E → Tally × World (Db Json) E
  stage_spec id none w = (no_tally, w)
  stage_spec id (some row) w =
      if stale_stage contract binding stale_after_ms w.db.now row
      then if leb ceiling (row.attempts binding.stage)
        then (
          one_dead_lettered,
          record w {
            db =
                dead_lettered contract
                  ((stage_units contract binding stale_after_ms).dead_letter_record id
                    (row.attempts binding.stage))
                  w.db;
          },
        )
        else (
          redriven (remove_then_enqueue contract binding stale_after_ms id none w.ext).0,
          record w {
            db = age_db id w.db;
            ext = (remove_then_enqueue contract binding stale_after_ms id none w.ext).1;
          },
        )
      else (no_tally, w)

  -- The queue's calls after a unit was aged, on either outcome.
  after_calls :
      (o : Outcome (Unit {0})) (w : World (Db Json) E)
      → tally_of contract ceiling
          (stage_units contract binding stale_after_ms)
          (continue (o, w) (λ _ w'. (ok one_redriven, w')))
        ≡ (redriven o, w)
  after_calls (ok u) w = refl
  after_calls (threw e) w = refl

  unit_row :
      (id : String) (row : InstanceRow) (w : World (Db Json) E)
      → tally_of contract ceiling (stage_units contract binding stale_after_ms) (
          continue
            (settle w.db (
              unit_current contract ceiling
                (stage_units contract binding stale_after_ms)
                id
                (reclaimed_stage contract binding stale_after_ms w.db.now (some row))
                w))
            (unit_after contract ceiling (stage_units contract binding stale_after_ms) id))
        ≡ stage_spec id (some row) w
  unfolding unit_current unit_after
  unit_row id row w = elim (Bool-cases (stage_status_id (row.status binding.stage) == 2)) [
    | inr moved ↦ rw moved
    | inl busy ↦
        elim (Bool-cases (older_than w.db.now stale_after_ms (row.updated_at binding.stage))) [
          | inr fresh ↦ rw (busy, fresh)
          | inl old ↦ elim (Bool-cases (leb ceiling (row.attempts binding.stage))) [
            | inl over ↦
                rw
                  (
                    busy,
                    old,
                    over,
                    attempts_exhausted-true (row.attempts binding.stage) ceiling (leb→le _ _ over),
                  )
                  (rw (
                    write_dead_letter_lem trx contract
                      ((stage_units contract binding stale_after_ms).dead_letter_record id
                        (row.attempts binding.stage))
                      w reconcile_literal-ne))
            | inr under ↦
                rw
                  (
                    busy,
                    old,
                    under,
                    attempts_exhausted-false (row.attempts binding.stage) ceiling (ground arith),
                  )
                  (after_calls (remove_then_enqueue contract binding stale_after_ms id none w.ext).0
                    (record w {
                      db = age_db id w.db;
                      ext = (remove_then_enqueue contract binding stale_after_ms id none w.ext).1;
                    }))
          ]
        ]
  ]

  -- A scan leaves alone a stage that is gone, has moved on, or was touched since; it
  -- dead-letters a stale one with no attempt left; and it gives any other one more attempt and
  -- a new timestamp, and then puts its job on the queue again.
  pub reconcile_unit-stage :
      (id : String) (w : World (Db Json) E)
      → reconcile_unit contract ceiling (stage_units contract binding stale_after_ms) id w
        ≡ stage_spec id (first_where (is_instance id) w.db.instances) w
  unfolding reconcile_unit
  reconcile_unit-stage id w = elim (Option-cases (first_where (is_instance id) w.db.instances)) [
    | inl e ↦ rw (e, unit_current)
    | inr (row, e) ↦ rw e (unit_row id row w)
  ]
