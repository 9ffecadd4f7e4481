-- ===== src/Diagnostics/Codes.antt =====
-- crates/rua-common/src/core.rs: the tables of the codes agree.
use rua_lang.Base.{
  ℕ, ◌+◌, ◌/◌, ◌%◌, ◌≡◌, ◌≢◌, refl, sym, ◌∙◌, ap, List, [], ◌∷◌, Option, none, some, ◌==◌, ltb,
  if◌then◌else◌, drop,
}
use rua_lang.Text.{decimal}
use rua_lang.Diagnostics.{
  DiagnosticCode, number, as_str, DiagnosticSeverity, severity_error, severity_warning, severity,
  DiagnosticCategory, parse, name_resolution, typing, annotation, lint, host, category,
}

-- the letter of a severity
abbrev pub letter : DiagnosticSeverity → ℕ
letter severity_error = b'E'
letter severity_warning = b'W'

abbrev pub four_digits : ℕ → List ℕ
four_digits n =
    (b'0' + n / 1000) ∷ (b'0' + n / 100 % 10) ∷ (b'0' + n / 10 % 10) ∷ (b'0' + n % 10) ∷ []

-- the category of the range that a number is in
abbrev pub category_of : ℕ → DiagnosticCategory
category_of n =
    if ltb n 100
    then parse
    else if ltb n 200
    then name_resolution
    else if ltb n 250
    then typing
    else if ltb n 300
    then annotation
    else if ltb n 400
    then lint
    else host

-- The tables' entries for a code.
pub record Consistent (code : DiagnosticCode) : Type 0 where
  pub spelled : as_str code ≡ letter (severity code) ∷ four_digits (number code)
  pub ranged : category code ≡ category_of (number code)

abbrev all_codes : List DiagnosticCode
all_codes =
    DiagnosticCode.parse_unexpected_token ∷ DiagnosticCode.parse_unterminated_string
    ∷ DiagnosticCode.parse_unterminated_comment ∷ DiagnosticCode.parse_expected_item
    ∷ DiagnosticCode.parse_missing_delimiter ∷ DiagnosticCode.parse_resource_limit
    ∷ DiagnosticCode.name_unresolved ∷ DiagnosticCode.name_duplicate_definition
    ∷ DiagnosticCode.name_private_access ∷ DiagnosticCode.name_module_not_found
    ∷ DiagnosticCode.name_ambiguous_import ∷ DiagnosticCode.name_unknown_member
    ∷ DiagnosticCode.name_module_cycle ∷ DiagnosticCode.name_invalid_module_path
    ∷ DiagnosticCode.name_invalid_declaration ∷ DiagnosticCode.type_mismatch
    ∷ DiagnosticCode.type_expected_bool ∷ DiagnosticCode.type_not_callable
    ∷ DiagnosticCode.type_argument_count ∷ DiagnosticCode.type_not_iterable
    ∷ DiagnosticCode.type_invalid_unary ∷ DiagnosticCode.type_invalid_binary
    ∷ DiagnosticCode.type_invalid_try ∷ DiagnosticCode.type_unsatisfied_trait_bound
    ∷ DiagnosticCode.type_unknown_field ∷ DiagnosticCode.type_unknown_method
    ∷ DiagnosticCode.type_missing_match_arm ∷ DiagnosticCode.type_immutable_assignment
    ∷ DiagnosticCode.type_invalid_ffi_adapter ∷ DiagnosticCode.type_invalid_break
    ∷ DiagnosticCode.type_invalid_optional_chain ∷ DiagnosticCode.annotation_unresolved
    ∷ DiagnosticCode.annotation_invalid_target ∷ DiagnosticCode.annotation_invalid_schema
    ∷ DiagnosticCode.annotation_invalid_arguments ∷ DiagnosticCode.annotation_duplicate
    ∷ DiagnosticCode.annotation_runtime_private ∷ DiagnosticCode.lint_unused_variable
    ∷ DiagnosticCode.lint_redundant_mut ∷ DiagnosticCode.lint_unreachable_code
    ∷ DiagnosticCode.lint_unused_function ∷ DiagnosticCode.lint_infinite_loop
    ∷ DiagnosticCode.lint_unsafe_table_mutation ∷ DiagnosticCode.host_source_read
    ∷ DiagnosticCode.host_project_invalid ∷ DiagnosticCode.host_builtin_invalid ∷ []

-- For every code, `as_str` is the letter of its severity and its number with four digits, and its
-- category is that of the range of its number.
pub as_str-Consistent : (code : DiagnosticCode) → Consistent code
unfolding as_str severity number category
as_str-Consistent DiagnosticCode.parse_unexpected_token = record { spelled = refl; ranged = refl }
as_str-Consistent DiagnosticCode.parse_unterminated_string = record {
  spelled = refl;
  ranged = refl;
}
as_str-Consistent DiagnosticCode.parse_unterminated_comment = record {
  spelled = refl;
  ranged = refl;
}
as_str-Consistent DiagnosticCode.parse_expected_item = record { spelled = refl; ranged = refl }
as_str-Consistent DiagnosticCode.parse_missing_delimiter = record { spelled = refl; ranged = refl }
as_str-Consistent DiagnosticCode.parse_resource_limit = record { spelled = refl; ranged = refl }
as_str-Consistent DiagnosticCode.name_unresolved = record { spelled = refl; ranged = refl }
as_str-Consistent DiagnosticCode.name_duplicate_definition = record {
  spelled = refl;
  ranged = refl;
}
as_str-Consistent DiagnosticCode.name_private_access = record { spelled = refl; ranged = refl }
as_str-Consistent DiagnosticCode.name_module_not_found = record { spelled = refl; ranged = refl }
as_str-Consistent DiagnosticCode.name_ambiguous_import = record { spelled = refl; ranged = refl }
as_str-Consistent DiagnosticCode.name_unknown_member = record { spelled = refl; ranged = refl }
as_str-Consistent DiagnosticCode.name_module_cycle = record { spelled = refl; ranged = refl }
as_str-Consistent DiagnosticCode.name_invalid_module_path = record { spelled = refl; ranged = refl }
as_str-Consistent DiagnosticCode.name_invalid_declaration = record { spelled = refl; ranged = refl }
as_str-Consistent DiagnosticCode.type_mismatch = record { spelled = refl; ranged = refl }
as_str-Consistent DiagnosticCode.type_expected_bool = record { spelled = refl; ranged = refl }
as_str-Consistent DiagnosticCode.type_not_callable = record { spelled = refl; ranged = refl }
as_str-Consistent DiagnosticCode.type_argument_count = record { spelled = refl; ranged = refl }
as_str-Consistent DiagnosticCode.type_not_iterable = record { spelled = refl; ranged = refl }
as_str-Consistent DiagnosticCode.type_invalid_unary = record { spelled = refl; ranged = refl }
as_str-Consistent DiagnosticCode.type_invalid_binary = record { spelled = refl; ranged = refl }
as_str-Consistent DiagnosticCode.type_invalid_try = record { spelled = refl; ranged = refl }
as_str-Consistent DiagnosticCode.type_unsatisfied_trait_bound = record {
  spelled = refl;
  ranged = refl;
}
as_str-Consistent DiagnosticCode.type_unknown_field = record { spelled = refl; ranged = refl }
as_str-Consistent DiagnosticCode.type_unknown_method = record { spelled = refl; ranged = refl }
as_str-Consistent DiagnosticCode.type_missing_match_arm = record { spelled = refl; ranged = refl }
as_str-Consistent DiagnosticCode.type_immutable_assignment = record {
  spelled = refl;
  ranged = refl;
}
as_str-Consistent DiagnosticCode.type_invalid_ffi_adapter = record { spelled = refl; ranged = refl }
as_str-Consistent DiagnosticCode.type_invalid_break = record { spelled = refl; ranged = refl }
as_str-Consistent DiagnosticCode.type_invalid_optional_chain = record {
  spelled = refl;
  ranged = refl;
}
as_str-Consistent DiagnosticCode.annotation_unresolved = record { spelled = refl; ranged = refl }
as_str-Consistent DiagnosticCode.annotation_invalid_target = record {
  spelled = refl;
  ranged = refl;
}
as_str-Consistent DiagnosticCode.annotation_invalid_schema = record {
  spelled = refl;
  ranged = refl;
}
as_str-Consistent DiagnosticCode.annotation_invalid_arguments = record {
  spelled = refl;
  ranged = refl;
}
as_str-Consistent DiagnosticCode.annotation_duplicate = record { spelled = refl; ranged = refl }
as_str-Consistent DiagnosticCode.annotation_runtime_private = record {
  spelled = refl;
  ranged = refl;
}
as_str-Consistent DiagnosticCode.lint_unused_variable = record { spelled = refl; ranged = refl }
as_str-Consistent DiagnosticCode.lint_redundant_mut = record { spelled = refl; ranged = refl }
as_str-Consistent DiagnosticCode.lint_unreachable_code = record { spelled = refl; ranged = refl }
as_str-Consistent DiagnosticCode.lint_unused_function = record { spelled = refl; ranged = refl }
as_str-Consistent DiagnosticCode.lint_infinite_loop = record { spelled = refl; ranged = refl }
as_str-Consistent DiagnosticCode.lint_unsafe_table_mutation = record {
  spelled = refl;
  ranged = refl;
}
as_str-Consistent DiagnosticCode.host_source_read = record { spelled = refl; ranged = refl }
as_str-Consistent DiagnosticCode.host_project_invalid = record { spelled = refl; ranged = refl }
as_str-Consistent DiagnosticCode.host_builtin_invalid = record { spelled = refl; ranged = refl }

-- the code with a number
unfoldable with_number : List DiagnosticCode → ℕ → Option DiagnosticCode
with_number [] n = none
with_number (c ∷ cs) n = let rest = with_number cs n in if number c == n then some c else rest

with_number_lem : (code : DiagnosticCode) → with_number all_codes (number code) ≡ some code
unfolding with_number number
with_number_lem DiagnosticCode.parse_unexpected_token = refl
with_number_lem DiagnosticCode.parse_unterminated_string = refl
with_number_lem DiagnosticCode.parse_unterminated_comment = refl
with_number_lem DiagnosticCode.parse_expected_item = refl
with_number_lem DiagnosticCode.parse_missing_delimiter = refl
with_number_lem DiagnosticCode.parse_resource_limit = refl
with_number_lem DiagnosticCode.name_unresolved = refl
with_number_lem DiagnosticCode.name_duplicate_definition = refl
with_number_lem DiagnosticCode.name_private_access = refl
with_number_lem DiagnosticCode.name_module_not_found = refl
with_number_lem DiagnosticCode.name_ambiguous_import = refl
with_number_lem DiagnosticCode.name_unknown_member = refl
with_number_lem DiagnosticCode.name_module_cycle = refl
with_number_lem DiagnosticCode.name_invalid_module_path = refl
with_number_lem DiagnosticCode.name_invalid_declaration = refl
with_number_lem DiagnosticCode.type_mismatch = refl
with_number_lem DiagnosticCode.type_expected_bool = refl
with_number_lem DiagnosticCode.type_not_callable = refl
with_number_lem DiagnosticCode.type_argument_count = refl
with_number_lem DiagnosticCode.type_not_iterable = refl
with_number_lem DiagnosticCode.type_invalid_unary = refl
with_number_lem DiagnosticCode.type_invalid_binary = refl
with_number_lem DiagnosticCode.type_invalid_try = refl
with_number_lem DiagnosticCode.type_unsatisfied_trait_bound = refl
with_number_lem DiagnosticCode.type_unknown_field = refl
with_number_lem DiagnosticCode.type_unknown_method = refl
with_number_lem DiagnosticCode.type_missing_match_arm = refl
with_number_lem DiagnosticCode.type_immutable_assignment = refl
with_number_lem DiagnosticCode.type_invalid_ffi_adapter = refl
with_number_lem DiagnosticCode.type_invalid_break = refl
with_number_lem DiagnosticCode.type_invalid_optional_chain = refl
with_number_lem DiagnosticCode.annotation_unresolved = refl
with_number_lem DiagnosticCode.annotation_invalid_target = refl
with_number_lem DiagnosticCode.annotation_invalid_schema = refl
with_number_lem DiagnosticCode.annotation_invalid_arguments = refl
with_number_lem DiagnosticCode.annotation_duplicate = refl
with_number_lem DiagnosticCode.annotation_runtime_private = refl
with_number_lem DiagnosticCode.lint_unused_variable = refl
with_number_lem DiagnosticCode.lint_redundant_mut = refl
with_number_lem DiagnosticCode.lint_unreachable_code = refl
with_number_lem DiagnosticCode.lint_unused_function = refl
with_number_lem DiagnosticCode.lint_infinite_loop = refl
with_number_lem DiagnosticCode.lint_unsafe_table_mutation = refl
with_number_lem DiagnosticCode.host_source_read = refl
with_number_lem DiagnosticCode.host_project_invalid = refl
with_number_lem DiagnosticCode.host_builtin_invalid = refl

decimal-drop : (code : DiagnosticCode) → decimal 0 (drop 1 (as_str code)) ≡ number code
unfolding as_str number decimal
decimal-drop DiagnosticCode.parse_unexpected_token = refl
decimal-drop DiagnosticCode.parse_unterminated_string = refl
decimal-drop DiagnosticCode.parse_unterminated_comment = refl
decimal-drop DiagnosticCode.parse_expected_item = refl
decimal-drop DiagnosticCode.parse_missing_delimiter = refl
decimal-drop DiagnosticCode.parse_resource_limit = refl
decimal-drop DiagnosticCode.name_unresolved = refl
decimal-drop DiagnosticCode.name_duplicate_definition = refl
decimal-drop DiagnosticCode.name_private_access = refl
decimal-drop DiagnosticCode.name_module_not_found = refl
decimal-drop DiagnosticCode.name_ambiguous_import = refl
decimal-drop DiagnosticCode.name_unknown_member = refl
decimal-drop DiagnosticCode.name_module_cycle = refl
decimal-drop DiagnosticCode.name_invalid_module_path = refl
decimal-drop DiagnosticCode.name_invalid_declaration = refl
decimal-drop DiagnosticCode.type_mismatch = refl
decimal-drop DiagnosticCode.type_expected_bool = refl
decimal-drop DiagnosticCode.type_not_callable = refl
decimal-drop DiagnosticCode.type_argument_count = refl
decimal-drop DiagnosticCode.type_not_iterable = refl
decimal-drop DiagnosticCode.type_invalid_unary = refl
decimal-drop DiagnosticCode.type_invalid_binary = refl
decimal-drop DiagnosticCode.type_invalid_try = refl
decimal-drop DiagnosticCode.type_unsatisfied_trait_bound = refl
decimal-drop DiagnosticCode.type_unknown_field = refl
decimal-drop DiagnosticCode.type_unknown_method = refl
decimal-drop DiagnosticCode.type_missing_match_arm = refl
decimal-drop DiagnosticCode.type_immutable_assignment = refl
decimal-drop DiagnosticCode.type_invalid_ffi_adapter = refl
decimal-drop DiagnosticCode.type_invalid_break = refl
decimal-drop DiagnosticCode.type_invalid_optional_chain = refl
decimal-drop DiagnosticCode.annotation_unresolved = refl
decimal-drop DiagnosticCode.annotation_invalid_target = refl
decimal-drop DiagnosticCode.annotation_invalid_schema = refl
decimal-drop DiagnosticCode.annotation_invalid_arguments = refl
decimal-drop DiagnosticCode.annotation_duplicate = refl
decimal-drop DiagnosticCode.annotation_runtime_private = refl
decimal-drop DiagnosticCode.lint_unused_variable = refl
decimal-drop DiagnosticCode.lint_redundant_mut = refl
decimal-drop DiagnosticCode.lint_unreachable_code = refl
decimal-drop DiagnosticCode.lint_unused_function = refl
decimal-drop DiagnosticCode.lint_infinite_loop = refl
decimal-drop DiagnosticCode.lint_unsafe_table_mutation = refl
decimal-drop DiagnosticCode.host_source_read = refl
decimal-drop DiagnosticCode.host_project_invalid = refl
decimal-drop DiagnosticCode.host_builtin_invalid = refl

-- Two different codes are spelled differently.
pub as_str_inj : (a b : DiagnosticCode) → a ≢ b → as_str a ≢ as_str b
as_str_inj a b differ e =
    let same : number a ≡ number b =
      sym (decimal-drop a) ∙ ap (λ s. decimal 0 (drop 1 s)) e ∙ decimal-drop b in
    let found : some a ≡ some b =
      sym (with_number_lem a) ∙ ap (with_number all_codes) same ∙ with_number_lem b in
    let equal : a ≡ b = cc in differ equal
