-- ===== src/Jobs/Checks.antt =====
-- The checks that throw a `ValidationError` before anything else is done.
use cloudtalk_tech_task.Base.{String, Bool, true, false, ◌≡◌, refl, if◌then◌else◌}
use cloudtalk_tech_task.Kernel.Errors.{validation_error, no_options}
use cloudtalk_tech_task.Sql.Io.{Outcome, ok, threw}

infixl 5 ◌>>◌
abbrev pub ◌>>◌ : {A : Type 0} → Outcome (Unit {0}) → Outcome A → Outcome A
ok _ >> next = next
threw e >> next = threw e

-- `if (test) { throw new ValidationError(message) }`
abbrev pub refuse_if : Bool → String → Outcome (Unit {0})
refuse_if test message = if test then threw (validation_error message no_options) else ok tt

-- A check that was passed, and what comes after it.
pub >>-eq_ok :
    {A : Type 0} (m : Outcome (Unit {0})) (next : Outcome A) {a : A}
    → (m >> next) ≡ ok a
    → (m ≡ ok tt) × (next ≡ ok a)
>>-eq_ok (ok tt) next h = (refl, h)
>>-eq_ok (threw e) next h = cc

pub refuse_if-eq_ok :
    (test : Bool) (message : String) → refuse_if test message ≡ ok tt → test ≡ false
refuse_if-eq_ok true message h = cc
refuse_if-eq_ok false message h = refl
