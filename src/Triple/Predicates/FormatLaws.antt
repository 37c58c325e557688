-- ===== src/Triple/Predicates/FormatLaws.antt =====
-- The object formats of triples that Triple's constructor makes.
use toy_riscv.Base.{ℕ, ◌+◌, Bool, true, false, Text, ◌≡◌, refl, arith, Bool-cases, inl, inr}
use toy_riscv.Triple.Types.{
  ArchType, OsType, ObjectFormatType, unknown_arch, arm, armeb, aarch64, aarch64_be, aarch64_32,
  arc, avr, bpfel, bpfeb, csky, hexagon, m68k, mips, mipsel, mips64, mips64el, msp430, ppc, ppcle,
  ppc64, ppc64le, r600, amdgcn, riscv32, riscv64, toyriscv32, toyriscv64, sparc, sparcv9, sparcel,
  systemz, tce, tcele, thumb, thumbeb, x86, x86_64, xcore, nvptx, nvptx64, le32, le64, amdil,
  amdil64, hsail, hsail64, spir, spir64, spirv32, spirv64, kalimba, shave, lanai, wasm32, wasm64,
  renderscript32, renderscript64, ve, aix, zos, unknown_object_format, coff, elf, goff, macho, wasm,
  xcoff,
}
use toy_riscv.Triple.Host.{Host}
use toy_riscv.Triple.Formats.{get_default_format, is_os_darwin, is_os_windows, object_format_of_os}
use toy_riscv.Triple.Target.{
  TargetTriple, is_unknown_format, parse_triple, with_default_format, fields, split,
}
use toy_riscv.Triple.Numbers.{arch_number}
use toy_riscv.Triple.Setters.{format_number}
use toy_riscv.Triple.Predicates.Systems.{
  is_os_bin_format_elf, is_os_bin_format_coff, is_os_bin_format_goff, is_os_bin_format_macho,
  is_os_bin_format_wasm, is_os_bin_format_xcoff,
}
use toy_riscv.Triple.Predicates.Archs.{is_spirv}

abbrev bit : Bool → ℕ
bit true = 1
bit false = 0

-- How many of the predicates on object formats hold.
abbrev pub binary_formats : TargetTriple → ℕ
binary_formats t =
    bit (is_os_bin_format_elf t)
    + bit (is_os_bin_format_coff t)
    + bit (is_os_bin_format_goff t)
    + bit (is_os_bin_format_macho t)
    + bit (is_os_bin_format_wasm t)
    + bit (is_os_bin_format_xcoff t)

binary_formats_of :
    (t : TargetTriple) (f : ObjectFormatType)
    → is_unknown_format f ≡ false
    → binary_formats (record t { object_format = f }) ≡ 1
unfolding format_number
binary_formats_of t unknown_object_format h = ground (arith, h)
binary_formats_of t coff h = refl
binary_formats_of t elf h = refl
binary_formats_of t goff h = refl
binary_formats_of t macho h = refl
binary_formats_of t wasm h = refl
binary_formats_of t xcoff h = refl

object_format_of_os-known : (o : OsType) → is_unknown_format (object_format_of_os o) ≡ false
object_format_of_os-known o = elim (Bool-cases (is_os_darwin o)) [
  | inl e ↦ rw e refl
  | inr e ↦ elim (Bool-cases (is_os_windows o)) [ inl f ↦ rw (e, f) refl | inr f ↦ rw (e, f) refl ]
]

get_default_format-known :
    (t : TargetTriple) (a : ArchType) (o : OsType)
    → is_spirv (record t { arch = a }) ≡ false
    → is_unknown_format (get_default_format a o) ≡ false
unfolding get_default_format arch_number
get_default_format-known t unknown_arch o h = object_format_of_os-known o
get_default_format-known t arm o h = object_format_of_os-known o
get_default_format-known t armeb o h = refl
get_default_format-known t aarch64 o h = object_format_of_os-known o
get_default_format-known t aarch64_be o h = refl
get_default_format-known t aarch64_32 o h = object_format_of_os-known o
get_default_format-known t arc o h = refl
get_default_format-known t avr o h = refl
get_default_format-known t bpfel o h = refl
get_default_format-known t bpfeb o h = refl
get_default_format-known t csky o h = refl
get_default_format-known t hexagon o h = refl
get_default_format-known t m68k o h = refl
get_default_format-known t mips o h = refl
get_default_format-known t mipsel o h = refl
get_default_format-known t mips64 o h = refl
get_default_format-known t mips64el o h = refl
get_default_format-known t msp430 o h = refl
get_default_format-known t ppc aix h = refl
get_default_format-known t ppc _ h = ground (arith, h)
get_default_format-known t ppcle o h = refl
get_default_format-known t ppc64 aix h = refl
get_default_format-known t ppc64 _ h = ground (arith, h)
get_default_format-known t ppc64le o h = refl
get_default_format-known t r600 o h = refl
get_default_format-known t amdgcn o h = refl
get_default_format-known t riscv32 o h = refl
get_default_format-known t riscv64 o h = refl
get_default_format-known t toyriscv32 o h = refl
get_default_format-known t toyriscv64 o h = refl
get_default_format-known t sparc o h = refl
get_default_format-known t sparcv9 o h = refl
get_default_format-known t sparcel o h = refl
get_default_format-known t systemz zos h = refl
get_default_format-known t systemz _ h = ground (arith, h)
get_default_format-known t tce o h = refl
get_default_format-known t tcele o h = refl
get_default_format-known t thumb o h = object_format_of_os-known o
get_default_format-known t thumbeb o h = refl
get_default_format-known t x86 o h = object_format_of_os-known o
get_default_format-known t x86_64 o h = object_format_of_os-known o
get_default_format-known t xcore o h = refl
get_default_format-known t nvptx o h = refl
get_default_format-known t nvptx64 o h = refl
get_default_format-known t le32 o h = refl
get_default_format-known t le64 o h = refl
get_default_format-known t amdil o h = refl
get_default_format-known t amdil64 o h = refl
get_default_format-known t hsail o h = refl
get_default_format-known t hsail64 o h = refl
get_default_format-known t spir o h = refl
get_default_format-known t spir64 o h = refl
get_default_format-known t spirv32 o h = ground (arith, h)
get_default_format-known t spirv64 o h = ground (arith, h)
get_default_format-known t kalimba o h = refl
get_default_format-known t shave o h = refl
get_default_format-known t lanai o h = refl
get_default_format-known t wasm32 o h = refl
get_default_format-known t wasm64 o h = refl
get_default_format-known t renderscript32 o h = refl
get_default_format-known t renderscript64 o h = refl
get_default_format-known t ve o h = refl

with_default_format-known :
    (t : TargetTriple)
    → is_spirv (with_default_format t) ≡ false
    → is_unknown_format (with_default_format t).object_format ≡ false
unfolding with_default_format
with_default_format-known t h = elim (Bool-cases (is_unknown_format t.object_format)) [
  | inl e ↦ rw e (get_default_format-known t t.arch t.os h)
  | inr e ↦ rw e e
]

-- Of a parsed triple that is not SPIR-V, exactly one of the predicates on object formats holds.
pub binary_formats-parse_triple :
    (h : Host) (x : Text)
    → is_spirv (parse_triple h x) ≡ false
    → binary_formats (parse_triple h x) ≡ 1
unfolding parse_triple
binary_formats-parse_triple h x k =
    let t = with_default_format (fields h x (split 3 x)) in
    binary_formats_of t t.object_format (with_default_format-known (fields h x (split 3 x)) k)
