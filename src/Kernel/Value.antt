-- ===== src/Kernel/Value.antt =====
-- The JavaScript values that a `catch` can receive, as far as the kernel looks into them.
use cloudtalk_tech_task.Base.{ℕ, String, Bool, true, false, str_eq, if◌then◌else◌, ◌==◌, not}

-- What `instanceof` can tell: every `AppError` is an `Error`.
pub data Class : Type 0 where
  plain error app_error : Class

mutual
  -- `int` is a number that is a natural number; `other_number` is any other number but `NaN`.
  pub data Value : Type 0 where
    undefined null nan other_number : Value
    bool : Bool → Value
    int : ℕ → Value
    str : String → Value
    obj : Class → Props → Value

  pub data Props : Type 0 where
    end : Props
    prop : String → Value → Props → Props

-- `record.key`, `undefined` where the property is missing
abbrev pub get : String → Props → Value
get key end = undefined
get key (prop name value rest) = let more = get key rest in if str_eq name key then value else more

-- `typeof value === 'string'`
abbrev pub is_string : Value → Bool
is_string (str s) = true
is_string _ = false

-- `typeof value === 'number'`
abbrev pub is_number : Value → Bool
is_number (int n) = true
is_number nan = true
is_number other_number = true
is_number _ = false

-- `typeof value === 'boolean'`
abbrev pub is_boolean : Value → Bool
is_boolean (bool b) = true
is_boolean _ = false

-- a value in a condition
abbrev pub truthy : Value → Bool
truthy (bool b) = b
truthy (int n) = not (n == 0)
truthy (str s) = not (str_eq s "")
truthy other_number = true
truthy (obj c ps) = true
truthy _ = false

-- The characters of a value that is a string.
abbrev pub text_of : Value → String
text_of (str s) = s
text_of _ = ""
