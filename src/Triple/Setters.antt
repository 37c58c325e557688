-- ===== src/Triple/Setters.antt =====
-- setVendor, setOS, setEnvironment and setObjectFormat of llvm/lib/Support/Triple.cpp.
use toy_riscv.Base.{ℕ, Bool, true, false, ◌==◌, if◌then◌else◌}
use toy_riscv.Triple.Types.{
  VendorType, OsType, EnvironmentType, unknown_environment, ObjectFormatType, unknown_object_format,
  coff, elf, goff, macho, wasm, xcoff,
}
use toy_riscv.Triple.Host.{Host}
use toy_riscv.Triple.Names.{
  get_vendor_type_name, get_os_type_name, get_environment_type_name, get_object_format_type_name,
}
use toy_riscv.Triple.Formats.{get_default_format}
use toy_riscv.Triple.Target.{TargetTriple, ◌⌢◌, set_vendor_name, set_os_name, set_environment_name}

-- The enumerators of ObjectFormatType are compared as numbers.
unfoldable pub format_number : ObjectFormatType → ℕ
format_number unknown_object_format = 0
format_number coff = 1
format_number elf = 2
format_number goff = 3
format_number macho = 4
format_number wasm = 5
format_number xcoff = 6

unfoldable pub set_vendor : Host → TargetTriple → VendorType → TargetTriple
set_vendor h t k = set_vendor_name h t (get_vendor_type_name k)

unfoldable pub set_os : Host → TargetTriple → OsType → TargetTriple
set_os h t k = set_os_name h t (get_os_type_name k)

-- Without a format of its own, the triple gets the environment's name alone.
unfoldable pub set_environment : Host → TargetTriple → EnvironmentType → TargetTriple
set_environment h t k =
    if format_number t.object_format == format_number (get_default_format t.arch t.os)
    then set_environment_name h t (get_environment_type_name k)
    else set_environment_name h t
        (get_environment_type_name k ⌢ get_object_format_type_name t.object_format)

-- Environment == UnknownEnvironment
abbrev pub is_unknown_environment : EnvironmentType → Bool
is_unknown_environment unknown_environment = true
is_unknown_environment _ = false

unfoldable pub set_object_format : Host → TargetTriple → ObjectFormatType → TargetTriple
set_object_format h t k =
    if is_unknown_environment t.environment
    then set_environment_name h t (get_object_format_type_name k)
    else set_environment_name h t
        (get_environment_type_name t.environment ⌢ get_object_format_type_name k)
