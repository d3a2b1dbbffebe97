-- ===== src/Tests/Sweeps.antt =====
-- A reconciler scan over the three instances, of which "b" and "c" are stale.
use cloudtalk_tech_task.Base.{
  ℕ, String, Option, Bool-cases, inl, inr, refl, str_eq, if◌then◌else◌, some, [], ◌∷◌, ◌≡◌, All,
  arith, eq_iff,
}
use cloudtalk_tech_task.Sql.{update_where}
use cloudtalk_tech_task.Sql.Laws.{first_where-update_hit, first_where_sound}
use cloudtalk_tech_task.Jobs.Stage.{claim_row}
use cloudtalk_tech_task.Jobs.Store.{InstanceRow, Db, is_instance}
use cloudtalk_tech_task.Jobs.Attempts.{attempts_exhausted}
use cloudtalk_tech_task.Jobs.Reconciler.{reconcile_stale_stages}
use cloudtalk_tech_task.Jobs.Reconciler.Stages.{found, Judged, found-update_where}
use cloudtalk_tech_task.Jobs.Reconciler.Scan.{IsDistinct, Meets, reconcile_stale_stages-Judged}
use cloudtalk_tech_task.Tests.Fixtures.{contract, binding, row_b, row_c, db, world}

ids-IsDistinct : IsDistinct db.instances
ids-IsDistinct = ground (arith, eq_iff "a" "b", eq_iff "a" "c", eq_iff "b" "c")

-- While the scan is under way, a worker claims "c" again.
abbrev claimed_again : String → InstanceRow → InstanceRow
claimed_again id r = if str_eq id "c" then claim_row binding.stage 100 r else r

abbrev meanwhile : String → InstanceRow → Option InstanceRow
meanwhile id r = some (claimed_again id r)

abbrev elsewhere : String → Db ℕ → Db ℕ
elsewhere id db = record db {
  now = 101;
  instances = update_where (is_instance id) (claimed_again id) db.instances;
}

claimed_again_id :
    (id : String) (r : InstanceRow) → (claimed_again id r).instance_id ≡ r.instance_id
claimed_again_id id r = elim (Bool-cases (str_eq id "c")) [
  | inl c ↦ rw c refl
  | inr other ↦ rw other refl
]

elsewhere-Meets : Meets elsewhere meanwhile (λ id. 101)
elsewhere-Meets = record {
  this = λ id db h.
      first_where-update_hit (is_instance id) (is_instance id) (claimed_again id) db.instances
        (λ y. rw (claimed_again_id id y) refl) h
        (first_where_sound (is_instance id) db.instances h);
  other = λ id id' db ne.
      found-update_where id id' (claimed_again id) db.instances ne (claimed_again_id id);
  clock = λ id db. refl;
}

reconcile_stale_stages-Judged_example :
    All
      (λ r.
        Judged contract binding 50 3 101
          (meanwhile r.instance_id r)
          (found r.instance_id (reconcile_stale_stages contract binding 50 elsewhere 3 world).1.db))
      (row_b ∷ row_c ∷ [])
reconcile_stale_stages-Judged_example =
    reconcile_stale_stages-Judged contract binding 50 3 elsewhere meanwhile (λ id. 101)
      elsewhere-Meets world ids-IsDistinct

-- The scan leaves "c" to its worker, although its attempts had reached the ceiling.
left_to_worker :
    found "c" (reconcile_stale_stages contract binding 50 elsewhere 3 world).1.db
    ≡ some (claim_row "tone" 100 row_c)
unfolding reconcile_stale_stages attempts_exhausted
left_to_worker = refl
