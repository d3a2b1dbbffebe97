-- ===== src/Kernel/Describe.antt =====
-- packages/kernel/src/errors/describe-error.ts
use Prim.Native.Char.{code}
use Prim.Native.String.{String}
use cloudtalk_tech_task.Base.{
  ℕ, zero, suc, Bool, true, false, Option, none, some, str_eq, ◌&&◌, ◌||◌, not, leb, ◌==◌,
  if◌then◌else◌,
}
use cloudtalk_tech_task.Kernel.Value.{Class, plain, Value, undefined, null, str, obj, Props, get}

abbrev pub sentinel_description : String
sentinel_description = "unknown error (no description)"

abbrev pub max_cause_depth : ℕ
max_cause_depth = 3

-- The code points that `String.prototype.trim` removes.
unfoldable pub is_space : ℕ → Bool
is_space c =
    (leb 9 c && leb c 13)
    || (c == 32)
    || (c == 160)
    || (c == 0x1680)
    || (leb 0x2000 c && leb c 0x200a)
    || (c == 0x2028)
    || (c == 0x2029)
    || (c == 0x202f)
    || (c == 0x205f)
    || (c == 0x3000)
    || (c == 0xfeff)

unfoldable pub trim_start : String → String
trim_start String.[] = ""
trim_start (String.◌∷◌ c s) =
    let rest = trim_start s in if is_space (code c) then rest else String.◌∷◌ c s

unfoldable pub trim_end : String → String
trim_end String.[] = ""
trim_end (String.◌∷◌ c s) =
    let rest = trim_end s in if str_eq rest "" && is_space (code c) then "" else String.◌∷◌ c rest

unfoldable pub trim : String → String
unfolding trim_start trim_end is_space
trim s = trim_end (trim_start s)

unfoldable pub non_empty_trimmed : String → Option String
unfolding trim
non_empty_trimmed value = if str_eq (trim value) "" then none else some (trim value)

-- `error.message`, '' where only the prototype has one
abbrev pub message_of : Value → String
message_of (str s) = s
message_of _ = ""

-- `error.name`, 'Error' where only the prototype has one
abbrev pub name_of : Value → String
name_of (str s) = s
name_of _ = "Error"

abbrev pub is_nullish : Value → Bool
is_nullish undefined = true
is_nullish null = true
is_nullish _ = false

abbrev pub is_plain : Class → Bool
is_plain plain = true
is_plain _ = false

-- The description of a value that is no `Error`.
unfoldable pub describe_other : Value → String
describe_other (str s) = elim (non_empty_trimmed s) [
  | some trimmed ↦ trimmed
  | none ↦ sentinel_description
]
describe_other _ = sentinel_description

-- The steps on an `Error` with the description of its cause, if the depth allows one.
unfoldable pub describe_fields : Props → Option String → String
describe_fields ps of_cause = elim (non_empty_trimmed (message_of (get "message" ps))) [
  | some message ↦ message
  | none ↦
      let name = name_of (get "name" ps) in
      if not (str_eq name "") && not (str_eq name "Error")
      then name
      else if is_nullish (get "cause" ps)
      then sentinel_description
      else elim of_cause [ some text ↦ text | none ↦ sentinel_description ]
]

-- `left` is MAX_CAUSE_DEPTH - depth
unfoldable pub describe_at_depth : ℕ → Value → String
unfolding describe_fields describe_other
describe_at_depth zero (obj c ps) =
    if is_plain c then sentinel_description else describe_fields ps none
describe_at_depth (suc left) (obj c ps) =
    let of_cause = describe_at_depth left (get "cause" ps) in
    if is_plain c then sentinel_description else describe_fields ps (some of_cause)
describe_at_depth left v = describe_other v

unfoldable pub describe_error : Value → String
unfolding describe_at_depth
describe_error e = describe_at_depth max_cause_depth e
