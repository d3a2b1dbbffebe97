-- ===== src/Jobs/Reconciler/Stages.antt =====
-- A stale stage is settled under its lock, and the rows of the other instances are left alone.
use cloudtalk_tech_task.Base.{
  List, ℕ, ◌+◌, ◌≤◌, ◌<◌, String, true, false, Option, none, some, ◌≡◌, refl, sym, ◌≢◌, ◌⊎◌, inl,
  inr, leb, leb→le, arith, Bool-cases, str_eq→eq, str_eq-ne, ◌∙◌, ap,
}
use cloudtalk_tech_task.Sql.{first_where, update_where}
use cloudtalk_tech_task.Sql.Laws.{
  first_where_sound, first_where-update_hit, first_where-update_other,
}
use cloudtalk_tech_task.Sql.Io.{World}
use cloudtalk_tech_task.Jobs.Store.{
  StageStatus, Contract, InstanceRow, Db, is_instance, stage_status_eq,
}
use cloudtalk_tech_task.Jobs.DeadLetter.{DeadLetterRecord}
use cloudtalk_tech_task.Jobs.DeadLetter.Laws.{dead_lettered, dead_lettered-failed, set_column_self}
use cloudtalk_tech_task.Jobs.Reconciler.{
  ReconcilerStageBinding, reconcile_unit, stale_stage, stage_units, aged_stage,
}
use cloudtalk_tech_task.Jobs.Reconciler.Units.{stage_spec, reconcile_unit-stage}

abbrev pub found : {Json : Type 0} → String → Db Json → Option InstanceRow
found id db = first_where (is_instance id) db.instances

other_instance :
    (id other : String) (row : InstanceRow)
    → other ≢ id
    → is_instance id row ≡ true
    → is_instance other row ≡ false
other_instance id other row ne h =
    str_eq-ne row.instance_id other (λ e. ne (sym e ∙ str_eq→eq row.instance_id id h))

-- An UPDATE of the rows of one instance leaves those of the others alone.
pub found-update_where :
    (id other : String) (f : InstanceRow → InstanceRow) (rows : List InstanceRow)
    → id ≢ other
    → ((r : InstanceRow) → (f r).instance_id ≡ r.instance_id)
    → first_where (is_instance other) (update_where (is_instance id) f rows)
      ≡ first_where (is_instance other) rows
found-update_where id other f rows ne same =
    first_where-update_other (is_instance other) (is_instance id) f rows
      (λ r. other_instance id other r (λ e. ne (sym e))) (λ r. rw (same r) refl)

-- A dead letter of one instance leaves the rows of the others alone.
found-dead_lettered :
    {Json : Type 0} (contract : Contract) (r : DeadLetterRecord Json) (db : Db Json) (id : String)
    → r.instance_id ≢ id
    → found id (dead_lettered contract r db) ≡ found id db
unfolding dead_lettered
found-dead_lettered contract r db id ne =
    found-update_where r.instance_id id _ db.instances ne (λ y. refl)

module _ {Json E : Type 0} (contract : Contract) (binding : ReconcilerStageBinding Json E)
    (stale_after_ms ceiling : ℕ) where
  -- What a scan leaves of a row that it found stale at the time `now`.
  abbrev pub Settled : ℕ → InstanceRow → InstanceRow → Type 0
  Settled now row row' =
      ((ceiling ≤ row.attempts binding.stage) × (row'.status binding.stage ≡ StageStatus.failed))
      ⊎ ((row.attempts binding.stage < ceiling)
          × (row'.status binding.stage ≡ StageStatus.in_progress)
          × (row'.attempts binding.stage ≡ row.attempts binding.stage + 1)
          × (row'.updated_at binding.stage ≡ now))

  abbrev pub after : String → World (Db Json) E → World (Db Json) E
  after id w =
      (reconcile_unit contract ceiling (stage_units contract binding stale_after_ms) id w).1

  in_progress-of :
      (s : StageStatus)
      → stage_status_eq s StageStatus.in_progress ≡ true
      → s ≡ StageStatus.in_progress
  in_progress-of s h = ground arith

  -- What a unit leaves of its row, from the row that it finds under its lock at the time `now`.
  abbrev pub Judged : ℕ → Option InstanceRow → Option InstanceRow → Type 0
  Judged now none after' = after' ≡ none
  Judged now (some row) after' =
      ((stale_stage contract binding stale_after_ms now row ≡ false) × (after' ≡ some row))
      ⊎ ((stale_stage contract binding stale_after_ms now row ≡ true)
          × ((row' : InstanceRow) × (after' ≡ some row') × Settled now row row'))

  spec-stale :
      (id : String) (row : InstanceRow) (w : World (Db Json) E)
      → found id w.db ≡ some row
      → stale_stage contract binding stale_after_ms w.db.now row ≡ true
      → (row' : InstanceRow) × (found id
            (stage_spec contract binding stale_after_ms ceiling id (some row) w).1.db
          ≡ some row')
        × Settled w.db.now row row'
  spec-stale id row w h old = rw old (elim (Bool-cases (leb ceiling (row.attempts binding.stage))) [
    | inl over ↦
        let (row', there, failed) =
          dead_lettered-failed contract
            ((stage_units contract binding stale_after_ms).dead_letter_record id
              (row.attempts binding.stage))
            w.db h in
        (row', rw over there, inl (leb→le _ _ over, failed))
    | inr under ↦ (
      aged_stage contract binding stale_after_ms w.db.now row,
      rw under (
          first_where-update_hit (is_instance id) (is_instance id) _ w.db.instances (λ y. refl) h
            (first_where_sound (is_instance id) w.db.instances h)),
      inr (
        ground arith,
        in_progress-of (row.status binding.stage) (ground arith),
        set_column_self row.attempts binding.stage (row.attempts binding.stage + 1),
        set_column_self row.updated_at binding.stage w.db.now,
      ),
    )
  ])

  spec-Judged :
      (id : String) (o : Option InstanceRow) (w : World (Db Json) E)
      → found id w.db ≡ o
      → Judged w.db.now o
          (found id (stage_spec contract binding stale_after_ms ceiling id o w).1.db)
  spec-Judged id none w h = h
  spec-Judged id (some row) w h =
      elim (Bool-cases (stale_stage contract binding stale_after_ms w.db.now row)) [
        | inr fresh ↦ inl (fresh, rw fresh h)
        | inl old ↦ inr (old, spec-stale id row w h old)
      ]

  pub unit-Judged :
      (id : String) (w : World (Db Json) E)
      → Judged w.db.now (found id w.db) (found id (after id w).db)
  unit-Judged id w =
      rw
        (ap (λ p. found id p.1.db)
          (reconcile_unit-stage contract binding stale_after_ms ceiling id w))
        (spec-Judged id (found id w.db) w refl)

  spec-other :
      (id other : String) (o : Option InstanceRow) (w : World (Db Json) E)
      → id ≢ other
      → found other (stage_spec contract binding stale_after_ms ceiling id o w).1.db
        ≡ found other w.db
  spec-other id other none w ne = refl
  spec-other id other (some r) w ne =
      elim (Bool-cases (stale_stage contract binding stale_after_ms w.db.now r)) [
        | inr fresh ↦ rw fresh refl
        | inl old ↦ elim (Bool-cases (leb ceiling (r.attempts binding.stage))) [
          | inl over ↦
              rw (old, over)
                (found-dead_lettered contract
                  ((stage_units contract binding stale_after_ms).dead_letter_record id
                    (r.attempts binding.stage))
                  w.db other ne)
          | inr under ↦
              rw (old, under) (found-update_where id other _ w.db.instances ne (λ y. refl))
        ]
      ]

  pub unit-other :
      (id other : String) (w : World (Db Json) E)
      → id ≢ other
      → found other (after id w).db ≡ found other w.db
  unit-other id other w ne =
      ap (λ p. found other p.1.db)
        (reconcile_unit-stage contract binding stale_after_ms ceiling id w)
      ∙ spec-other id other (found id w.db) w ne
