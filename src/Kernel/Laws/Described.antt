-- ===== src/Kernel/Laws/Described.antt =====
-- `describeError` never answers with an empty text, and looks at most three causes deep.
use cloudtalk_tech_task.Base.{
  ℕ, zero, suc, String, Option, none, some, ◌≡◌, ◌≢◌, inl, inr, arith, str_eq, eq_iff, Option-cases,
  if◌then◌else◌, ◌&&◌, not,
}
use cloudtalk_tech_task.Kernel.Value.{plain, error, Value, str, obj, Props, end, prop, get}
use cloudtalk_tech_task.Kernel.Describe.{
  sentinel_description, trim, non_empty_trimmed, describe_other, describe_fields, describe_at_depth,
  describe_error, max_cause_depth, message_of, name_of, is_nullish,
}

sentinel-ne : sentinel_description ≢ ""
sentinel-ne = ground (arith, eq_iff sentinel_description "")

non_empty_trimmed-ne : (s t : String) → non_empty_trimmed s ≡ some t → t ≢ ""
unfolding non_empty_trimmed
non_empty_trimmed-ne s t h e = ground (arith, eq_iff (trim s) "")

describe_other-ne : (v : Value) → describe_other v ≢ ""
unfolding describe_other
describe_other-ne (str s) = elim (Option-cases (non_empty_trimmed s)) [
  | inl e ↦ rw (e, describe_other) sentinel-ne
  | inr (t, e) ↦ rw (e, describe_other) (non_empty_trimmed-ne s t e)
]
describe_other-ne _ = sentinel-ne

abbrev IsNonEmpty : Option String → Type 0
IsNonEmpty none = Unit
IsNonEmpty (some t) = t ≢ ""

describe_fields-ne :
    (ps : Props) (of_cause : Option String) → IsNonEmpty of_cause → describe_fields ps of_cause ≢ ""
unfolding describe_fields
describe_fields-ne ps of_cause h =
    elim (Option-cases (non_empty_trimmed (message_of (get "message" ps)))) [
      | inl e ↦ rw (e, describe_fields) (describe_unsaid of_cause h)
      | inr (t, e) ↦ rw (e, describe_fields) (non_empty_trimmed-ne _ t e)
    ]
  where
    describe_unsaid :
        (o : Option String)
        → IsNonEmpty o
        → (if not (str_eq (name_of (get "name" ps)) "")
              && not (str_eq (name_of (get "name" ps)) "Error")
            then name_of (get "name" ps)
            else if is_nullish (get "cause" ps)
            then sentinel_description
            else elim o [ some text ↦ text | none ↦ sentinel_description ])
          ≢ ""
    describe_unsaid none k = ground (arith, sentinel-ne, eq_iff (name_of (get "name" ps)) "")
    describe_unsaid (some t) k = ground (arith, k, sentinel-ne, eq_iff (name_of (get "name" ps)) "")

describe_at_depth-ne : (left : ℕ) (v : Value) → describe_at_depth left v ≢ ""
unfolding describe_at_depth
describe_at_depth-ne zero (obj plain ps) = sentinel-ne
describe_at_depth-ne zero (obj c ps) = describe_fields-ne ps none tt
describe_at_depth-ne (suc left) (obj plain ps) = sentinel-ne
describe_at_depth-ne (suc left) (obj c ps) =
    describe_fields-ne ps (some _) (describe_at_depth-ne left _)
describe_at_depth-ne left v = describe_other-ne v

-- The description of a thrown value is never the empty text.
pub describe_error-ne : (e : Value) → describe_error e ≢ ""
unfolding describe_error
describe_error-ne e = describe_at_depth-ne max_cause_depth e

-- An error with a cause and nothing to say of its own.
unfoldable pub silent_error : Value → Value
silent_error cause = obj error (prop "cause" cause end)

-- Four errors that say nothing hide whatever caused them: their description is the sentinel.
pub describe_error_depth :
    (e : Value)
    → describe_error (silent_error (silent_error (silent_error (silent_error e))))
      ≡ sentinel_description
unfolding describe_error silent_error non_empty_trimmed
describe_error_depth e = ground arith
