-- ===== src/Diagnostics.antt =====
-- crates/rua-common/src/core.rs: the codes of diagnostics, and the payload that carries one.
pub mod Codes
use rua_lang.Base.{ℕ, List, [], ◌∷◌, ◌++◌, Option, none, some, codes}
use rua_lang.Lex.Range.{TextRange}

pub data DiagnosticCode : Type 0 where
  parse_unexpected_token parse_unterminated_string parse_unterminated_comment parse_expected_item
        parse_missing_delimiter parse_resource_limit name_unresolved name_duplicate_definition
        name_private_access name_module_not_found name_ambiguous_import name_unknown_member
        name_module_cycle name_invalid_module_path name_invalid_declaration type_mismatch
        type_expected_bool type_not_callable type_argument_count type_not_iterable
        type_invalid_unary type_invalid_binary type_invalid_try type_unsatisfied_trait_bound
        type_unknown_field type_unknown_method type_missing_match_arm type_immutable_assignment
        type_invalid_ffi_adapter type_invalid_break type_invalid_optional_chain
        annotation_unresolved annotation_invalid_target annotation_invalid_schema
        annotation_invalid_arguments annotation_duplicate annotation_runtime_private
        lint_unused_variable lint_redundant_mut lint_unreachable_code lint_unused_function
        lint_infinite_loop lint_unsafe_table_mutation host_source_read host_project_invalid
        host_builtin_invalid :
      DiagnosticCode

-- the discriminant
unfoldable pub number : DiagnosticCode → ℕ
number DiagnosticCode.parse_unexpected_token = 1
number DiagnosticCode.parse_unterminated_string = 2
number DiagnosticCode.parse_unterminated_comment = 3
number DiagnosticCode.parse_expected_item = 4
number DiagnosticCode.parse_missing_delimiter = 5
number DiagnosticCode.parse_resource_limit = 6
number DiagnosticCode.name_unresolved = 100
number DiagnosticCode.name_duplicate_definition = 101
number DiagnosticCode.name_private_access = 102
number DiagnosticCode.name_module_not_found = 103
number DiagnosticCode.name_ambiguous_import = 104
number DiagnosticCode.name_unknown_member = 105
number DiagnosticCode.name_module_cycle = 106
number DiagnosticCode.name_invalid_module_path = 107
number DiagnosticCode.name_invalid_declaration = 108
number DiagnosticCode.type_mismatch = 200
number DiagnosticCode.type_expected_bool = 201
number DiagnosticCode.type_not_callable = 202
number DiagnosticCode.type_argument_count = 203
number DiagnosticCode.type_not_iterable = 204
number DiagnosticCode.type_invalid_unary = 205
number DiagnosticCode.type_invalid_binary = 206
number DiagnosticCode.type_invalid_try = 207
number DiagnosticCode.type_unsatisfied_trait_bound = 208
number DiagnosticCode.type_unknown_field = 209
number DiagnosticCode.type_unknown_method = 210
number DiagnosticCode.type_missing_match_arm = 211
number DiagnosticCode.type_immutable_assignment = 212
number DiagnosticCode.type_invalid_ffi_adapter = 213
number DiagnosticCode.type_invalid_break = 214
number DiagnosticCode.type_invalid_optional_chain = 215
number DiagnosticCode.annotation_unresolved = 250
number DiagnosticCode.annotation_invalid_target = 251
number DiagnosticCode.annotation_invalid_schema = 252
number DiagnosticCode.annotation_invalid_arguments = 253
number DiagnosticCode.annotation_duplicate = 254
number DiagnosticCode.annotation_runtime_private = 255
number DiagnosticCode.lint_unused_variable = 300
number DiagnosticCode.lint_redundant_mut = 301
number DiagnosticCode.lint_unreachable_code = 302
number DiagnosticCode.lint_unused_function = 303
number DiagnosticCode.lint_infinite_loop = 304
number DiagnosticCode.lint_unsafe_table_mutation = 305
number DiagnosticCode.host_source_read = 400
number DiagnosticCode.host_project_invalid = 401
number DiagnosticCode.host_builtin_invalid = 402

unfoldable pub as_str : DiagnosticCode → List ℕ
as_str DiagnosticCode.parse_unexpected_token = codes "E0001"
as_str DiagnosticCode.parse_unterminated_string = codes "E0002"
as_str DiagnosticCode.parse_unterminated_comment = codes "E0003"
as_str DiagnosticCode.parse_expected_item = codes "E0004"
as_str DiagnosticCode.parse_missing_delimiter = codes "E0005"
as_str DiagnosticCode.parse_resource_limit = codes "E0006"
as_str DiagnosticCode.name_unresolved = codes "E0100"
as_str DiagnosticCode.name_duplicate_definition = codes "E0101"
as_str DiagnosticCode.name_private_access = codes "E0102"
as_str DiagnosticCode.name_module_not_found = codes "E0103"
as_str DiagnosticCode.name_ambiguous_import = codes "E0104"
as_str DiagnosticCode.name_unknown_member = codes "E0105"
as_str DiagnosticCode.name_module_cycle = codes "E0106"
as_str DiagnosticCode.name_invalid_module_path = codes "E0107"
as_str DiagnosticCode.name_invalid_declaration = codes "E0108"
as_str DiagnosticCode.type_mismatch = codes "E0200"
as_str DiagnosticCode.type_expected_bool = codes "E0201"
as_str DiagnosticCode.type_not_callable = codes "E0202"
as_str DiagnosticCode.type_argument_count = codes "E0203"
as_str DiagnosticCode.type_not_iterable = codes "E0204"
as_str DiagnosticCode.type_invalid_unary = codes "E0205"
as_str DiagnosticCode.type_invalid_binary = codes "E0206"
as_str DiagnosticCode.type_invalid_try = codes "E0207"
as_str DiagnosticCode.type_unsatisfied_trait_bound = codes "E0208"
as_str DiagnosticCode.type_unknown_field = codes "E0209"
as_str DiagnosticCode.type_unknown_method = codes "E0210"
as_str DiagnosticCode.type_missing_match_arm = codes "E0211"
as_str DiagnosticCode.type_immutable_assignment = codes "E0212"
as_str DiagnosticCode.type_invalid_ffi_adapter = codes "E0213"
as_str DiagnosticCode.type_invalid_break = codes "E0214"
as_str DiagnosticCode.type_invalid_optional_chain = codes "E0215"
as_str DiagnosticCode.annotation_unresolved = codes "E0250"
as_str DiagnosticCode.annotation_invalid_target = codes "E0251"
as_str DiagnosticCode.annotation_invalid_schema = codes "E0252"
as_str DiagnosticCode.annotation_invalid_arguments = codes "E0253"
as_str DiagnosticCode.annotation_duplicate = codes "E0254"
as_str DiagnosticCode.annotation_runtime_private = codes "E0255"
as_str DiagnosticCode.lint_unused_variable = codes "W0300"
as_str DiagnosticCode.lint_redundant_mut = codes "W0301"
as_str DiagnosticCode.lint_unreachable_code = codes "W0302"
as_str DiagnosticCode.lint_unused_function = codes "W0303"
as_str DiagnosticCode.lint_infinite_loop = codes "W0304"
as_str DiagnosticCode.lint_unsafe_table_mutation = codes "W0305"
as_str DiagnosticCode.host_source_read = codes "E0400"
as_str DiagnosticCode.host_project_invalid = codes "E0401"
as_str DiagnosticCode.host_builtin_invalid = codes "E0402"

pub data DiagnosticSeverity : Type 0 where
  severity_error severity_warning : DiagnosticSeverity

unfoldable pub severity : DiagnosticCode → DiagnosticSeverity
severity DiagnosticCode.lint_unused_variable = severity_warning
severity DiagnosticCode.lint_redundant_mut = severity_warning
severity DiagnosticCode.lint_unreachable_code = severity_warning
severity DiagnosticCode.lint_unused_function = severity_warning
severity DiagnosticCode.lint_infinite_loop = severity_warning
severity DiagnosticCode.lint_unsafe_table_mutation = severity_warning
severity _ = severity_error

pub data DiagnosticCategory : Type 0 where
  parse name_resolution typing annotation lint host : DiagnosticCategory

unfoldable pub category : DiagnosticCode → DiagnosticCategory
category DiagnosticCode.parse_unexpected_token = parse
category DiagnosticCode.parse_unterminated_string = parse
category DiagnosticCode.parse_unterminated_comment = parse
category DiagnosticCode.parse_expected_item = parse
category DiagnosticCode.parse_missing_delimiter = parse
category DiagnosticCode.parse_resource_limit = parse
category DiagnosticCode.name_unresolved = name_resolution
category DiagnosticCode.name_duplicate_definition = name_resolution
category DiagnosticCode.name_private_access = name_resolution
category DiagnosticCode.name_module_not_found = name_resolution
category DiagnosticCode.name_ambiguous_import = name_resolution
category DiagnosticCode.name_unknown_member = name_resolution
category DiagnosticCode.name_module_cycle = name_resolution
category DiagnosticCode.name_invalid_module_path = name_resolution
category DiagnosticCode.name_invalid_declaration = name_resolution
category DiagnosticCode.type_mismatch = typing
category DiagnosticCode.type_expected_bool = typing
category DiagnosticCode.type_not_callable = typing
category DiagnosticCode.type_argument_count = typing
category DiagnosticCode.type_not_iterable = typing
category DiagnosticCode.type_invalid_unary = typing
category DiagnosticCode.type_invalid_binary = typing
category DiagnosticCode.type_invalid_try = typing
category DiagnosticCode.type_unsatisfied_trait_bound = typing
category DiagnosticCode.type_unknown_field = typing
category DiagnosticCode.type_unknown_method = typing
category DiagnosticCode.type_missing_match_arm = typing
category DiagnosticCode.type_immutable_assignment = typing
category DiagnosticCode.type_invalid_ffi_adapter = typing
category DiagnosticCode.type_invalid_break = typing
category DiagnosticCode.type_invalid_optional_chain = typing
category DiagnosticCode.annotation_unresolved = annotation
category DiagnosticCode.annotation_invalid_target = annotation
category DiagnosticCode.annotation_invalid_schema = annotation
category DiagnosticCode.annotation_invalid_arguments = annotation
category DiagnosticCode.annotation_duplicate = annotation
category DiagnosticCode.annotation_runtime_private = annotation
category DiagnosticCode.lint_unused_variable = lint
category DiagnosticCode.lint_redundant_mut = lint
category DiagnosticCode.lint_unreachable_code = lint
category DiagnosticCode.lint_unused_function = lint
category DiagnosticCode.lint_infinite_loop = lint
category DiagnosticCode.lint_unsafe_table_mutation = lint
category DiagnosticCode.host_source_read = host
category DiagnosticCode.host_project_invalid = host
category DiagnosticCode.host_builtin_invalid = host

pub record DiagnosticArgument : Type 0 where
  pub name : List ℕ
  pub value : List ℕ

pub record StructuredDiagnostic : Type 0 where
  pub code : DiagnosticCode
  pub file : Option ℕ
  pub range : Option TextRange
  pub arguments : List DiagnosticArgument

unfoldable pub new : DiagnosticCode → Option ℕ → Option TextRange → StructuredDiagnostic
new code file range = record { code = code; file = file; range = range; arguments = [] }

unfoldable pub with_argument : StructuredDiagnostic → List ℕ → List ℕ → StructuredDiagnostic
with_argument diagnostic name value = record diagnostic {
  arguments = diagnostic.arguments ++ (record { name = name; value = value }) ∷ [];
}
