-- ===== src/Tests/Diagnostics.antt =====
-- crates/rua-common/src/core.rs: the theorems on diagnostics at two codes.
use rua_lang.Base.{◌≡◌, ◌≢◌, refl, codes}
use rua_lang.Diagnostics.{DiagnosticCode, as_str}
use rua_lang.Diagnostics.Codes.{Consistent, as_str-Consistent, as_str_inj}

unreachable : as_str DiagnosticCode.lint_unreachable_code ≡ codes "W0302"
unfolding as_str
unreachable = refl

as_str-Consistent_example : Consistent DiagnosticCode.host_project_invalid
as_str-Consistent_example = as_str-Consistent DiagnosticCode.host_project_invalid

as_str_inj_example : as_str DiagnosticCode.type_mismatch ≢ as_str DiagnosticCode.type_expected_bool
as_str_inj_example =
    as_str_inj DiagnosticCode.type_mismatch DiagnosticCode.type_expected_bool (λ e. cc)
