-- ===== src/Reviews/Violations.antt =====
-- packages/reviews/src/internal/unique-violation.ts: what the driver's unique violations mean.
use cloudtalk_tech_task.Base.{String, false, Option, none, some, str_eq, ◌&◌, if◌then◌else◌}
use cloudtalk_tech_task.Kernel.Value.{plain, error, Value, str, obj, end, prop, get}
use cloudtalk_tech_task.Kernel.Errors.{conflict_error, internal_error}

pub record UniqueViolation : Type 0 where
  pub code : String
  pub constraint : Option String

abbrev pub product_slug_constraint : String
product_slug_constraint = "uq_product__slug"

abbrev pub product_sku_constraint : String
product_sku_constraint = "uq_product__sku"

abbrev pub review_author_constraint : String
review_author_constraint = "uq_review__product_id__author_id"

abbrev pub review_token_constraint : String
review_token_constraint = "uq_review__token"

-- the driver's error where a unique constraint is violated
abbrev pub driver_violation : String → Value
driver_violation constraint =
    obj error (prop "code" (str "23505") (prop "constraint" (str constraint) end))

abbrev constraint_of : Value → Option String
constraint_of (str s) = some s
constraint_of _ = none

abbrev violation_with : Option String → Value → Option UniqueViolation
violation_with none constraint = none
violation_with (some code) constraint =
    some (record { code = code; constraint = constraint_of constraint })

unfoldable pub as_unique_violation : Value → Option UniqueViolation
as_unique_violation (obj c ps) =
    violation_with (constraint_of (get "code" ps)) (get "constraint" ps)
as_unique_violation _ = none

-- `isMappedConstraint` and the lookup in CONFLICT_FIELD_BY_CONSTRAINT
abbrev pub conflict_field : String → Option String
conflict_field name =
    if str_eq name product_slug_constraint
    then some "slug"
    else if str_eq name product_sku_constraint
    then some "sku"
    else if str_eq name review_author_constraint
    then some "review"
    else none

abbrev violated : Option UniqueViolation → Option String
violated none = none
violated (some v) = if str_eq v.code "23505" then v.constraint else none

unfoldable pub unique_violation_constraint_of : Value → Option String
unfolding as_unique_violation
unique_violation_constraint_of e = violated (as_unique_violation e)

abbrev with_field : Value → Option String → Option String → Value
with_field e (some field) constraint =
    conflict_error ("unique constraint violated on \"" & field & "\"")
      (record { details = some (obj plain (prop "field" (str field) end)); cause = e })
with_field e none (some name) =
    internal_error false "unique constraint violated on an internally-minted value"
      (record { details = some (obj plain (prop "constraint" (str name) end)); cause = e })
with_field e none none =
    internal_error false "unique constraint violated on an internally-minted value"
      (record { details = none; cause = e })

abbrev field_of : Option String → Option String
field_of none = none
field_of (some name) = conflict_field name

abbrev translated : Value → Option UniqueViolation → Option Value
translated e none = none
translated e (some v) =
    if str_eq v.code "23505" then some (with_field e (field_of v.constraint) v.constraint) else none

unfoldable pub translate_unique_violation : Value → Option Value
unfolding as_unique_violation
translate_unique_violation e = translated e (as_unique_violation e)
