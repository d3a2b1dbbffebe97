-- ===== src/Jobs/Reconciler/Scan.antt =====
-- A whole scan of the stale stages, over a table of distinct instance ids.
use cloudtalk_tech_task.Base.{
  ℕ, String, Bool, some, List, [], ◌∷◌, ◌≡◌, refl, sym, ◌≢◌, ◌∙◌, Option, inl, inr, Bool-cases, All,
  map, str_eq_refl, str_eq-ne,
}
use cloudtalk_tech_task.Sql.{first_where, select_where}
use cloudtalk_tech_task.Sql.Laws.{All-select_where}
use cloudtalk_tech_task.Sql.Io.{World}
use cloudtalk_tech_task.Jobs.Store.{Contract, InstanceRow, Db, is_instance}
use cloudtalk_tech_task.Jobs.Reconciler.{
  ReconcilerStageBinding, reconcile_stale_units, reconcile_stale_stages, stale_stage, stage_units,
}
use cloudtalk_tech_task.Jobs.Reconciler.Stages.{found, Judged, after, unit-Judged, unit-other}

abbrev pub NotIn : String → List InstanceRow → Type 0
NotIn id = All (λ r. r.instance_id ≢ id)

-- Instance ids are the table's primary key.
abbrev pub IsDistinct : List InstanceRow → Type 0
IsDistinct [] = Unit
IsDistinct (r ∷ rows) = NotIn r.instance_id rows × IsDistinct rows

IsDistinct-select_where :
    (p : InstanceRow → Bool) (rows : List InstanceRow)
    → IsDistinct rows
    → IsDistinct (select_where p rows)
IsDistinct-select_where p [] d = tt
IsDistinct-select_where p (r ∷ rows) (ne, d) = elim (Bool-cases (p r)) [
  | inl chosen ↦ rw chosen (All-select_where _ p rows ne, IsDistinct-select_where p rows d)
  | inr passed ↦ rw passed (IsDistinct-select_where p rows d)
]

-- A row that is not the first is found behind it.
found_behind :
    (r : InstanceRow) (chosen table : List InstanceRow)
    → NotIn r.instance_id chosen
    → All (λ x. first_where (is_instance x.instance_id) table ≡ some x) chosen
    → All (λ x. first_where (is_instance x.instance_id) (r ∷ table) ≡ some x) chosen
found_behind r [] table ne h = tt
found_behind r (x ∷ chosen) table (n, ne) (p, h) = (
  rw (str_eq-ne r.instance_id x.instance_id (λ e. n (sym e))) p,
  found_behind r chosen table ne h,
)

found_self :
    (rows : List InstanceRow)
    → IsDistinct rows
    → All (λ x. first_where (is_instance x.instance_id) rows ≡ some x) rows
found_self [] d = tt
found_self (r ∷ rows) (ne, d) =
    (rw (str_eq_refl r.instance_id) refl, found_behind r rows rows ne (found_self rows d))

-- Other connections, as a scan meets them: what they commit before the lock of a unit makes the
-- unit's row `meanwhile`, leaves the other rows alone, and happens before the time `later`.
pub record Meets {Json : Type 0} (elsewhere : String → Db Json → Db Json)
    (meanwhile : String → InstanceRow → Option InstanceRow) (later : String → ℕ) : Type 0 where
  pub this :
      (id : String) (db : Db Json) {row : InstanceRow}
      → found id db ≡ some row
      → found id (elsewhere id db) ≡ meanwhile id row
  pub other :
      (id id' : String) (db : Db Json) → id ≢ id' → found id' (elsewhere id db) ≡ found id' db
  pub clock : (id : String) (db : Db Json) → (elsewhere id db).now ≡ later id

module _ {Json E : Type 0} (contract : Contract) (binding : ReconcilerStageBinding Json E)
    (stale_after_ms ceiling : ℕ) (elsewhere : String → Db Json → Db Json)
    (meanwhile : String → InstanceRow → Option InstanceRow) (later : String → ℕ)
    (meets : Meets elsewhere meanwhile later) where
  -- the rows that a scan found are still in the table
  abbrev Present : List InstanceRow → Db Json → Type 0
  Present rows db = All (λ r. found r.instance_id db ≡ some r) rows

  abbrev met : String → World (Db Json) E → World (Db Json) E
  met id w = record w { db = elsewhere id w.db }

  abbrev turn : String → World (Db Json) E → World (Db Json) E
  turn id w = after contract binding stale_after_ms ceiling id (met id w)

  turn-other :
      (id id' : String) (w : World (Db Json) E)
      → id ≢ id'
      → found id' (turn id w).db ≡ found id' w.db
  turn-other id id' w ne =
      unit-other contract binding stale_after_ms ceiling id id' (met id w) ne
      ∙ meets.other id id' w.db ne

  Present-turn :
      (id : String) (rows : List InstanceRow) (w : World (Db Json) E)
      → NotIn id rows
      → Present rows w.db
      → Present rows (turn id w).db
  Present-turn id [] w ne h = tt
  Present-turn id (r ∷ rows) w (n, ne) (p, h) =
      (turn-other id r.instance_id w (λ e. n (sym e)) ∙ p, Present-turn id rows w ne h)

  abbrev scanned : List InstanceRow → World (Db Json) E → World (Db Json) E
  scanned rows w =
      (reconcile_stale_units contract ceiling (stage_units contract binding stale_after_ms)
        elsewhere (map (λ (r : InstanceRow). r.instance_id) rows) w).1

  scanned-other :
      (rows : List InstanceRow) (w : World (Db Json) E) (id : String)
      → NotIn id rows
      → found id (scanned rows w).db ≡ found id w.db
  unfolding reconcile_stale_units
  scanned-other [] w id ne = refl
  scanned-other (r ∷ rows) w id (n, ne) =
      scanned-other rows (turn r.instance_id w) id ne ∙ turn-other r.instance_id id w n

  scanned-Judged :
      (rows : List InstanceRow) (w : World (Db Json) E)
      → IsDistinct rows
      → Present rows w.db
      → All
          (λ r.
            Judged contract binding stale_after_ms ceiling
              (later r.instance_id)
              (meanwhile r.instance_id r)
              (found r.instance_id (scanned rows w).db))
          rows
  unfolding reconcile_stale_units
  scanned-Judged [] w d h = tt
  scanned-Judged (r ∷ rows) w (ne, d) (p, h) = (
    rw
        (
          scanned-other rows (turn r.instance_id w) r.instance_id ne,
          sym (meets.clock r.instance_id w.db),
          sym (meets.this r.instance_id w.db p),
        )
        (unit-Judged contract binding stale_after_ms ceiling r.instance_id (met r.instance_id w)),
    scanned-Judged rows (turn r.instance_id w) d (Present-turn r.instance_id rows w ne h),
  )

  -- In a table of distinct instance ids, where other connections may change or delete a unit's
  -- row, and the time may pass, before the unit's lock, but not the rows of the other units, a
  -- scan judges every row that it found stale by what stands there under the lock: a row that
  -- is gone stays gone; one that is no longer in progress and stale, such as one that a worker
  -- has claimed again, stays as it is; any other is failed if its attempts had reached the
  -- ceiling, and otherwise stays in progress with one attempt more and the time of the lock as
  -- its timestamp, whatever the queue's calls throw.
  pub reconcile_stale_stages-Judged :
      (w : World (Db Json) E)
      → IsDistinct w.db.instances
      → All
          (λ r.
            Judged contract binding stale_after_ms ceiling
              (later r.instance_id)
              (meanwhile r.instance_id r)
              (found r.instance_id
                (reconcile_stale_stages contract binding stale_after_ms elsewhere ceiling w).1.db))
          (select_where (stale_stage contract binding stale_after_ms w.db.now) w.db.instances)
  unfolding reconcile_stale_stages
  reconcile_stale_stages-Judged w d =
      let chosen = stale_stage contract binding stale_after_ms w.db.now in
      scanned-Judged (select_where chosen w.db.instances) w
        (IsDistinct-select_where chosen w.db.instances d)
        (All-select_where _ chosen w.db.instances (found_self w.db.instances d))

  -- A scan leaves every row that it did not find stale as it was.
  pub reconcile_stale_stages-other :
      (w : World (Db Json) E) (id : String)
      → NotIn id
          (select_where (stale_stage contract binding stale_after_ms w.db.now) w.db.instances)
      → found id (reconcile_stale_stages contract binding stale_after_ms elsewhere ceiling w).1.db
        ≡ found id w.db
  unfolding reconcile_stale_stages
  reconcile_stale_stages-other w id ne =
      scanned-other
        (select_where (stale_stage contract binding stale_after_ms w.db.now) w.db.instances) w id ne
