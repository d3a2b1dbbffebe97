-- ===== src/Jobs/Contract/Names.antt =====
-- The names of an accepted contract: they fit, and a reference to a table has exactly two parts.
use Prim.Native.Char.{Char, code}
use Prim.Native.String.append
use cloudtalk_tech_task.Base.{
  ℕ, ◌+◌, ◌≤◌, String, true, false, List, [], ◌∷◌, ◌≡◌, refl, ◌∙◌, ap, arith, ◌==◌, ◌&◌,
  text_length, if◌then◌else◌, All, sym, not, str_eq, str_eq→eq,
}
use cloudtalk_tech_task.Sql.Io.{ok}
use cloudtalk_tech_task.Jobs.Checks.{refuse_if, >>-eq_ok, refuse_if-eq_ok}
use cloudtalk_tech_task.Jobs.Store.{Contract}
use cloudtalk_tech_task.Jobs.Contract.{
  is_identifier, is_identifier_part, is_lower, all_parts, assert_identifier,
  assert_identifier_byte_length, stage_result_table, branch_table, stage_status_constraint,
  assert_stages, assert_constraint_lengths, create_pipeline_table_contract, instance_table_ref,
  stage_result_table_ref, branch_table_ref, no_stages, column_message,
}

text_length-append : (s t : String) → text_length (s & t) ≡ text_length s + text_length t
text_length-append String.[] t = ap text_length (append.nil t) ∙ omega arith
text_length-append (String.◌∷◌ c s) t =
    ap text_length (append.cons c s t) ∙ omega (arith, text_length-append s t)

all_parts-append :
    (s t : String) → all_parts s ≡ true → all_parts t ≡ true → all_parts (s & t) ≡ true
unfolding all_parts
all_parts-append String.[] t h k = rw (append.nil t) k
all_parts-append (String.◌∷◌ c s) t h k =
    rw (append.cons c s t) (ground (arith, all_parts-append s t))

all_parts-is_identifier : (s : String) → is_identifier s ≡ true → all_parts s ≡ true
unfolding is_identifier is_identifier_part
all_parts-is_identifier String.[] h = refl
all_parts-is_identifier (String.◌∷◌ c s) h = ground arith

dot-not_part : (c : ℕ) → is_identifier_part c ≡ true → (c == b'.') ≡ false
unfolding is_identifier_part is_lower
dot-not_part c h = ground arith

-- one more character at the front of the first text
abbrev pub push_char : Char → List String → List String
push_char c [] = String.◌∷◌ c "" ∷ []
push_char c (part ∷ parts) = String.◌∷◌ c part ∷ parts

-- the texts between the dots, as `sql.table` takes a reference apart
unfoldable pub split_dots : String → List String
split_dots String.[] = "" ∷ []
split_dots (String.◌∷◌ c s) =
    if code c == b'.' then "" ∷ split_dots s else push_char c (split_dots s)

split_dots_whole : (s : String) → all_parts s ≡ true → split_dots s ≡ s ∷ []
unfolding split_dots all_parts
split_dots_whole String.[] h = refl
split_dots_whole (String.◌∷◌ c s) h = ground (arith, dot-not_part (code c), split_dots_whole s)

dot_first : (t : String) → "." & t ≡ String.◌∷◌ "." t
dot_first t = append.cons "." "" t ∙ ap (String.◌∷◌ ".") (append.nil t)

split_dots_first : (s t : String) → all_parts s ≡ true → split_dots (s & "." & t) ≡ s ∷ split_dots t
unfolding split_dots all_parts
split_dots_first String.[] t h = rw (append.nil ("." & t)) (rw (dot_first t))
split_dots_first (String.◌∷◌ c s) t h =
    rw (append.cons c s ("." & t)) (ground (arith, dot-not_part (code c), split_dots_first s t))

-- What an accepted contract's names satisfy.
pub record NamesFit (c : Contract) : Type 0 where
  pub table : text_length c.table ≤ 63
  pub instance_id : text_length c.instance_id_column ≤ 63
  pub stage_results : text_length (stage_result_table c.table) ≤ 63
  pub branches : text_length (branch_table c.table) ≤ 63
  pub stages :
      All
        (λ stage.
          (text_length (stage_status_constraint c.table stage) ≤ 63)
          × (text_length (stage & "_stage_status_id") ≤ 63)
          × (text_length (stage & "_attempts") ≤ 63)
          × (text_length (stage & "_updated_at") ≤ 63))
        c.stages

pub record RefsSplit (c : Contract) : Type 0 where
  pub instances : split_dots (instance_table_ref c) ≡ c.schema ∷ c.table ∷ []
  pub stage_results :
      split_dots (stage_result_table_ref c) ≡ c.schema ∷ stage_result_table c.table ∷ []
  pub branches : split_dots (branch_table_ref c) ≡ c.schema ∷ branch_table c.table ∷ []

-- The checks that an accepted contract has passed.
record Accepted (c : Contract) : Type 0 where
  schema : is_identifier c.schema ≡ true
  table : is_identifier c.table ≡ true
  column : str_eq c.instance_id_column (c.table & "_id") ≡ true
  short : text_length c.table ≤ 63
  short_results : text_length (stage_result_table c.table) ≤ 63
  short_branches : text_length (branch_table c.table) ≤ 63
  constraints : assert_constraint_lengths c.table c.stages ≡ ok tt

is_identifier-asserted :
    (s label : String) → assert_identifier s label ≡ ok tt → is_identifier s ≡ true
unfolding assert_identifier
is_identifier-asserted s label h = ground (arith, refuse_if-eq_ok _ _ h)

short-asserted :
    (s label : String) → assert_identifier_byte_length s label ≡ ok tt → text_length s ≤ 63
unfolding assert_identifier_byte_length
short-asserted s label h = ground (arith, refuse_if-eq_ok _ _ h)

equal_asserted :
    (a b message : String) → refuse_if (not (str_eq a b)) message ≡ ok tt → str_eq a b ≡ true
equal_asserted a b message h = ground (arith, refuse_if-eq_ok (not (str_eq a b)) message h)

-- The contract is returned as it was given.
ok_injective : {a b : Contract} → ok a ≡ ok b → a ≡ b
ok_injective h = cc

accepted : (c c' : Contract) → create_pipeline_table_contract c ≡ ok c' → Accepted c × (c' ≡ c)
unfolding create_pipeline_table_contract
accepted c c' h =
    let (pipeline, h1) =
      >>-eq_ok (assert_identifier c.pipeline "PipelineTableContract.pipeline") _ h in
    let (schema, h2) = >>-eq_ok (assert_identifier c.schema "PipelineTableContract.schema") _ h1 in
    let (table, h3) = >>-eq_ok (assert_identifier c.table "PipelineTableContract.table") _ h2 in
    let (column, h4) =
      >>-eq_ok (assert_identifier c.instance_id_column "PipelineTableContract.instanceIdColumn") _
        h3 in
    let (some_stage, h5) =
      >>-eq_ok
        (refuse_if (no_stages c.stages)
          "PipelineTableContract.stages must declare at least one stage")
        _ h4 in
    let (stages, h6) = >>-eq_ok (assert_stages c.stages) _ h5 in
    let (named, h7) =
      >>-eq_ok (refuse_if (not (str_eq c.instance_id_column (c.table & "_id"))) (column_message c))
        _ h6 in
    let (short, h8) = >>-eq_ok (assert_identifier_byte_length c.table "instance table name") _ h7 in
    let (short_results, h9) =
      >>-eq_ok
        (assert_identifier_byte_length (stage_result_table c.table) "stage-result table name") _
        h8 in
    let (short_branches, h10) =
      >>-eq_ok (assert_identifier_byte_length (branch_table c.table) "branch table name") _ h9 in
    let (constraints, h11) = >>-eq_ok _ _ h10 in
    (
      record {
        schema = is_identifier-asserted c.schema "PipelineTableContract.schema" schema;
        table = is_identifier-asserted c.table "PipelineTableContract.table" table;
        column = equal_asserted c.instance_id_column (c.table & "_id") (column_message c) named;
        short = short-asserted c.table "instance table name" short;
        short_results =
            short-asserted (stage_result_table c.table) "stage-result table name" short_results;
        short_branches = short-asserted (branch_table c.table) "branch table name" short_branches;
        constraints = constraints;
      },
      sym (ok_injective h11),
    )

-- The columns of a stage are shorter than its constraint.
columns_fit :
    (table stage : String)
    → text_length (stage_status_constraint table stage) ≤ 63
    → (text_length (stage & "_stage_status_id") ≤ 63)
      × (text_length (stage & "_attempts") ≤ 63)
      × (text_length (stage & "_updated_at") ≤ 63)
columns_fit table stage h = omega (
  arith,
  text_length-append "fk_" (table & "__stage_status__" & stage),
  text_length-append table ("__stage_status__" & stage),
  text_length-append "__stage_status__" stage,
  text_length-append stage "_stage_status_id",
  text_length-append stage "_attempts",
  text_length-append stage "_updated_at",
)

all_columns_fit :
    (table : String) (stages : List String)
    → assert_constraint_lengths table stages ≡ ok tt
    → All
        (λ stage.
          (text_length (stage_status_constraint table stage) ≤ 63)
          × (text_length (stage & "_stage_status_id") ≤ 63)
          × (text_length (stage & "_attempts") ≤ 63)
          × (text_length (stage & "_updated_at") ≤ 63))
        stages
unfolding assert_constraint_lengths
all_columns_fit table [] h = tt
all_columns_fit table (stage ∷ stages) h =
    let (first, rest) = >>-eq_ok _ _ h in
    let fits = short-asserted _ _ first in
    let (a, b, c) = columns_fit table stage fits in
    ((fits, a, b, c), all_columns_fit table stages rest)

column_fits : (c : Contract) → Accepted c → text_length c.instance_id_column ≤ 63
column_fits c a =
    let column = str_eq→eq c.instance_id_column (c.table & "_id") a.column in
    omega (
      arith,
      ap text_length column,
      text_length-append c.table "_id",
      text_length-append c.table "_branch",
      a.short_branches,
    )

ref_splits :
    (schema table : String)
    → all_parts schema ≡ true
    → all_parts table ≡ true
    → split_dots (schema & "." & table) ≡ schema ∷ table ∷ []
ref_splits schema table h k =
    split_dots_first schema table h ∙ ap (λ rest. schema ∷ rest) (split_dots_whole table k)

stage_result_parts : all_parts "_stage_result" ≡ true
unfolding all_parts
stage_result_parts = refl

branch_parts : all_parts "_branch" ≡ true
unfolding all_parts
branch_parts = refl

-- In an accepted contract the names of the three tables, of the id column, of the foreign key of
-- every stage's status, and of every stage's columns, which are not checked themselves, have at
-- most 63 characters.
pub create_pipeline_table_contract-NamesFit :
    (c c' : Contract) → create_pipeline_table_contract c ≡ ok c' → NamesFit c'
create_pipeline_table_contract-NamesFit c c' h =
    let (a, same) = accepted c c' h in
    rw same (record {
      table = a.short;
      instance_id = column_fits c a;
      stage_results = a.short_results;
      branches = a.short_branches;
      stages = all_columns_fit c.table c.stages a.constraints;
    })

-- Each of the three table references of an accepted contract, split at its dots, is exactly the
-- schema and the name of the table.
pub create_pipeline_table_contract-RefsSplit :
    (c c' : Contract) → create_pipeline_table_contract c ≡ ok c' → RefsSplit c'
unfolding instance_table_ref stage_result_table_ref branch_table_ref
create_pipeline_table_contract-RefsSplit c c' h =
    let (a, same) = accepted c c' h in
    let schema = all_parts-is_identifier c.schema a.schema in
    let table = all_parts-is_identifier c.table a.table in
    rw same (record {
      instances = ref_splits c.schema c.table schema table;
      stage_results =
          ref_splits c.schema (stage_result_table c.table) schema
            (all_parts-append c.table "_stage_result" table stage_result_parts);
      branches =
          ref_splits c.schema (branch_table c.table) schema
            (all_parts-append c.table "_branch" table branch_parts);
    })
