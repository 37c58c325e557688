-- ===== src/Triple/ArchLaws.antt =====
-- parseArch reads the names of architectures: llvm/lib/Support/Triple.cpp.
use toy_riscv.Base.{false, ◌≡◌, refl}
use toy_riscv.Triple.Types.{
  ArchType, unknown_arch, arm, armeb, aarch64, aarch64_be, aarch64_32, arc, avr, bpfel, bpfeb, csky,
  hexagon, m68k, mips, mipsel, mips64, mips64el, msp430, ppc, ppcle, ppc64, ppc64le, r600, amdgcn,
  riscv32, riscv64, toyriscv32, toyriscv64, sparc, sparcv9, sparcel, systemz, tce, tcele, thumb,
  thumbeb, x86, x86_64, xcore, nvptx, nvptx64, le32, le64, amdil, amdil64, hsail, hsail64, spir,
  spir64, spirv32, spirv64, kalimba, shave, lanai, wasm32, wasm64, renderscript32, renderscript64,
  ve, SubArchType,
}
use toy_riscv.Triple.ArchNames.{get_arch_type_name}
use toy_riscv.Triple.ParseArch.{parse_arch, parse_special_arch, parse_bpf_arch}
use toy_riscv.Triple.Host.{Host}
use toy_riscv.Base.{Bool-cases, inl, inr}
use toy_riscv.Triple.ArchName.{name_of_arch, is_mips_r6}
use toy_riscv.Triple.Target.{has_dash}

pub parse_arch-get_arch_type_name :
    (h : Host) (k : ArchType) → parse_arch h (get_arch_type_name k) ≡ k
unfolding parse_arch parse_special_arch parse_bpf_arch get_arch_type_name
parse_arch-get_arch_type_name h unknown_arch = refl
parse_arch-get_arch_type_name h arm = refl
parse_arch-get_arch_type_name h armeb = refl
parse_arch-get_arch_type_name h aarch64 = refl
parse_arch-get_arch_type_name h aarch64_be = refl
parse_arch-get_arch_type_name h aarch64_32 = refl
parse_arch-get_arch_type_name h arc = refl
parse_arch-get_arch_type_name h avr = refl
parse_arch-get_arch_type_name h bpfel = refl
parse_arch-get_arch_type_name h bpfeb = refl
parse_arch-get_arch_type_name h csky = refl
parse_arch-get_arch_type_name h hexagon = refl
parse_arch-get_arch_type_name h m68k = refl
parse_arch-get_arch_type_name h mips = refl
parse_arch-get_arch_type_name h mipsel = refl
parse_arch-get_arch_type_name h mips64 = refl
parse_arch-get_arch_type_name h mips64el = refl
parse_arch-get_arch_type_name h msp430 = refl
parse_arch-get_arch_type_name h ppc = refl
parse_arch-get_arch_type_name h ppcle = refl
parse_arch-get_arch_type_name h ppc64 = refl
parse_arch-get_arch_type_name h ppc64le = refl
parse_arch-get_arch_type_name h r600 = refl
parse_arch-get_arch_type_name h amdgcn = refl
parse_arch-get_arch_type_name h riscv32 = refl
parse_arch-get_arch_type_name h riscv64 = refl
parse_arch-get_arch_type_name h toyriscv32 = refl
parse_arch-get_arch_type_name h toyriscv64 = refl
parse_arch-get_arch_type_name h sparc = refl
parse_arch-get_arch_type_name h sparcv9 = refl
parse_arch-get_arch_type_name h sparcel = refl
parse_arch-get_arch_type_name h systemz = refl
parse_arch-get_arch_type_name h tce = refl
parse_arch-get_arch_type_name h tcele = refl
parse_arch-get_arch_type_name h thumb = refl
parse_arch-get_arch_type_name h thumbeb = refl
parse_arch-get_arch_type_name h x86 = refl
parse_arch-get_arch_type_name h x86_64 = refl
parse_arch-get_arch_type_name h xcore = refl
parse_arch-get_arch_type_name h nvptx = refl
parse_arch-get_arch_type_name h nvptx64 = refl
parse_arch-get_arch_type_name h le32 = refl
parse_arch-get_arch_type_name h le64 = refl
parse_arch-get_arch_type_name h amdil = refl
parse_arch-get_arch_type_name h amdil64 = refl
parse_arch-get_arch_type_name h hsail = refl
parse_arch-get_arch_type_name h hsail64 = refl
parse_arch-get_arch_type_name h spir = refl
parse_arch-get_arch_type_name h spir64 = refl
parse_arch-get_arch_type_name h spirv32 = refl
parse_arch-get_arch_type_name h spirv64 = refl
parse_arch-get_arch_type_name h kalimba = refl
parse_arch-get_arch_type_name h shave = refl
parse_arch-get_arch_type_name h lanai = refl
parse_arch-get_arch_type_name h wasm32 = refl
parse_arch-get_arch_type_name h wasm64 = refl
parse_arch-get_arch_type_name h renderscript32 = refl
parse_arch-get_arch_type_name h renderscript64 = refl
parse_arch-get_arch_type_name h ve = refl

pub has_dash-get_arch_type_name : (k : ArchType) → has_dash (get_arch_type_name k) ≡ false
unfolding get_arch_type_name
has_dash-get_arch_type_name unknown_arch = refl
has_dash-get_arch_type_name arm = refl
has_dash-get_arch_type_name armeb = refl
has_dash-get_arch_type_name aarch64 = refl
has_dash-get_arch_type_name aarch64_be = refl
has_dash-get_arch_type_name aarch64_32 = refl
has_dash-get_arch_type_name arc = refl
has_dash-get_arch_type_name avr = refl
has_dash-get_arch_type_name bpfel = refl
has_dash-get_arch_type_name bpfeb = refl
has_dash-get_arch_type_name csky = refl
has_dash-get_arch_type_name hexagon = refl
has_dash-get_arch_type_name m68k = refl
has_dash-get_arch_type_name mips = refl
has_dash-get_arch_type_name mipsel = refl
has_dash-get_arch_type_name mips64 = refl
has_dash-get_arch_type_name mips64el = refl
has_dash-get_arch_type_name msp430 = refl
has_dash-get_arch_type_name ppc = refl
has_dash-get_arch_type_name ppcle = refl
has_dash-get_arch_type_name ppc64 = refl
has_dash-get_arch_type_name ppc64le = refl
has_dash-get_arch_type_name r600 = refl
has_dash-get_arch_type_name amdgcn = refl
has_dash-get_arch_type_name riscv32 = refl
has_dash-get_arch_type_name riscv64 = refl
has_dash-get_arch_type_name toyriscv32 = refl
has_dash-get_arch_type_name toyriscv64 = refl
has_dash-get_arch_type_name sparc = refl
has_dash-get_arch_type_name sparcv9 = refl
has_dash-get_arch_type_name sparcel = refl
has_dash-get_arch_type_name systemz = refl
has_dash-get_arch_type_name tce = refl
has_dash-get_arch_type_name tcele = refl
has_dash-get_arch_type_name thumb = refl
has_dash-get_arch_type_name thumbeb = refl
has_dash-get_arch_type_name x86 = refl
has_dash-get_arch_type_name x86_64 = refl
has_dash-get_arch_type_name xcore = refl
has_dash-get_arch_type_name nvptx = refl
has_dash-get_arch_type_name nvptx64 = refl
has_dash-get_arch_type_name le32 = refl
has_dash-get_arch_type_name le64 = refl
has_dash-get_arch_type_name amdil = refl
has_dash-get_arch_type_name amdil64 = refl
has_dash-get_arch_type_name hsail = refl
has_dash-get_arch_type_name hsail64 = refl
has_dash-get_arch_type_name spir = refl
has_dash-get_arch_type_name spir64 = refl
has_dash-get_arch_type_name spirv32 = refl
has_dash-get_arch_type_name spirv64 = refl
has_dash-get_arch_type_name kalimba = refl
has_dash-get_arch_type_name shave = refl
has_dash-get_arch_type_name lanai = refl
has_dash-get_arch_type_name wasm32 = refl
has_dash-get_arch_type_name wasm64 = refl
has_dash-get_arch_type_name renderscript32 = refl
has_dash-get_arch_type_name renderscript64 = refl
has_dash-get_arch_type_name ve = refl

-- parseArch reads each architecture back from the name that getArchName gives it, with any
-- sub-architecture and on any host.
pub parse_arch-name_of_arch :
    (h : Host) (k : ArchType) (s : SubArchType) → parse_arch h (name_of_arch k s) ≡ k
unfolding name_of_arch parse_arch
parse_arch-name_of_arch h unknown_arch s = parse_arch-get_arch_type_name h unknown_arch
parse_arch-name_of_arch h arm s = parse_arch-get_arch_type_name h arm
parse_arch-name_of_arch h armeb s = parse_arch-get_arch_type_name h armeb
parse_arch-name_of_arch h aarch64 s = parse_arch-get_arch_type_name h aarch64
parse_arch-name_of_arch h aarch64_be s = parse_arch-get_arch_type_name h aarch64_be
parse_arch-name_of_arch h aarch64_32 s = parse_arch-get_arch_type_name h aarch64_32
parse_arch-name_of_arch h arc s = parse_arch-get_arch_type_name h arc
parse_arch-name_of_arch h avr s = parse_arch-get_arch_type_name h avr
parse_arch-name_of_arch h bpfel s = parse_arch-get_arch_type_name h bpfel
parse_arch-name_of_arch h bpfeb s = parse_arch-get_arch_type_name h bpfeb
parse_arch-name_of_arch h csky s = parse_arch-get_arch_type_name h csky
parse_arch-name_of_arch h hexagon s = parse_arch-get_arch_type_name h hexagon
parse_arch-name_of_arch h m68k s = parse_arch-get_arch_type_name h m68k
parse_arch-name_of_arch h mips s = elim (Bool-cases (is_mips_r6 s)) [
  | inl e ↦ rw e refl
  | inr e ↦ rw e (parse_arch-get_arch_type_name h mips)
]
parse_arch-name_of_arch h mipsel s = elim (Bool-cases (is_mips_r6 s)) [
  | inl e ↦ rw e refl
  | inr e ↦ rw e (parse_arch-get_arch_type_name h mipsel)
]
parse_arch-name_of_arch h mips64 s = elim (Bool-cases (is_mips_r6 s)) [
  | inl e ↦ rw e refl
  | inr e ↦ rw e (parse_arch-get_arch_type_name h mips64)
]
parse_arch-name_of_arch h mips64el s = elim (Bool-cases (is_mips_r6 s)) [
  | inl e ↦ rw e refl
  | inr e ↦ rw e (parse_arch-get_arch_type_name h mips64el)
]
parse_arch-name_of_arch h msp430 s = parse_arch-get_arch_type_name h msp430
parse_arch-name_of_arch h ppc s = parse_arch-get_arch_type_name h ppc
parse_arch-name_of_arch h ppcle s = parse_arch-get_arch_type_name h ppcle
parse_arch-name_of_arch h ppc64 s = parse_arch-get_arch_type_name h ppc64
parse_arch-name_of_arch h ppc64le s = parse_arch-get_arch_type_name h ppc64le
parse_arch-name_of_arch h r600 s = parse_arch-get_arch_type_name h r600
parse_arch-name_of_arch h amdgcn s = parse_arch-get_arch_type_name h amdgcn
parse_arch-name_of_arch h riscv32 s = parse_arch-get_arch_type_name h riscv32
parse_arch-name_of_arch h riscv64 s = parse_arch-get_arch_type_name h riscv64
parse_arch-name_of_arch h toyriscv32 s = parse_arch-get_arch_type_name h toyriscv32
parse_arch-name_of_arch h toyriscv64 s = parse_arch-get_arch_type_name h toyriscv64
parse_arch-name_of_arch h sparc s = parse_arch-get_arch_type_name h sparc
parse_arch-name_of_arch h sparcv9 s = parse_arch-get_arch_type_name h sparcv9
parse_arch-name_of_arch h sparcel s = parse_arch-get_arch_type_name h sparcel
parse_arch-name_of_arch h systemz s = parse_arch-get_arch_type_name h systemz
parse_arch-name_of_arch h tce s = parse_arch-get_arch_type_name h tce
parse_arch-name_of_arch h tcele s = parse_arch-get_arch_type_name h tcele
parse_arch-name_of_arch h thumb s = parse_arch-get_arch_type_name h thumb
parse_arch-name_of_arch h thumbeb s = parse_arch-get_arch_type_name h thumbeb
parse_arch-name_of_arch h x86 s = parse_arch-get_arch_type_name h x86
parse_arch-name_of_arch h x86_64 s = parse_arch-get_arch_type_name h x86_64
parse_arch-name_of_arch h xcore s = parse_arch-get_arch_type_name h xcore
parse_arch-name_of_arch h nvptx s = parse_arch-get_arch_type_name h nvptx
parse_arch-name_of_arch h nvptx64 s = parse_arch-get_arch_type_name h nvptx64
parse_arch-name_of_arch h le32 s = parse_arch-get_arch_type_name h le32
parse_arch-name_of_arch h le64 s = parse_arch-get_arch_type_name h le64
parse_arch-name_of_arch h amdil s = parse_arch-get_arch_type_name h amdil
parse_arch-name_of_arch h amdil64 s = parse_arch-get_arch_type_name h amdil64
parse_arch-name_of_arch h hsail s = parse_arch-get_arch_type_name h hsail
parse_arch-name_of_arch h hsail64 s = parse_arch-get_arch_type_name h hsail64
parse_arch-name_of_arch h spir s = parse_arch-get_arch_type_name h spir
parse_arch-name_of_arch h spir64 s = parse_arch-get_arch_type_name h spir64
parse_arch-name_of_arch h spirv32 s = parse_arch-get_arch_type_name h spirv32
parse_arch-name_of_arch h spirv64 s = parse_arch-get_arch_type_name h spirv64
parse_arch-name_of_arch h kalimba s = parse_arch-get_arch_type_name h kalimba
parse_arch-name_of_arch h shave s = parse_arch-get_arch_type_name h shave
parse_arch-name_of_arch h lanai s = parse_arch-get_arch_type_name h lanai
parse_arch-name_of_arch h wasm32 s = parse_arch-get_arch_type_name h wasm32
parse_arch-name_of_arch h wasm64 s = parse_arch-get_arch_type_name h wasm64
parse_arch-name_of_arch h renderscript32 s = parse_arch-get_arch_type_name h renderscript32
parse_arch-name_of_arch h renderscript64 s = parse_arch-get_arch_type_name h renderscript64
parse_arch-name_of_arch h ve s = parse_arch-get_arch_type_name h ve

pub has_dash-name_of_arch : (k : ArchType) (s : SubArchType) → has_dash (name_of_arch k s) ≡ false
unfolding name_of_arch parse_arch
has_dash-name_of_arch unknown_arch s = has_dash-get_arch_type_name unknown_arch
has_dash-name_of_arch arm s = has_dash-get_arch_type_name arm
has_dash-name_of_arch armeb s = has_dash-get_arch_type_name armeb
has_dash-name_of_arch aarch64 s = has_dash-get_arch_type_name aarch64
has_dash-name_of_arch aarch64_be s = has_dash-get_arch_type_name aarch64_be
has_dash-name_of_arch aarch64_32 s = has_dash-get_arch_type_name aarch64_32
has_dash-name_of_arch arc s = has_dash-get_arch_type_name arc
has_dash-name_of_arch avr s = has_dash-get_arch_type_name avr
has_dash-name_of_arch bpfel s = has_dash-get_arch_type_name bpfel
has_dash-name_of_arch bpfeb s = has_dash-get_arch_type_name bpfeb
has_dash-name_of_arch csky s = has_dash-get_arch_type_name csky
has_dash-name_of_arch hexagon s = has_dash-get_arch_type_name hexagon
has_dash-name_of_arch m68k s = has_dash-get_arch_type_name m68k
has_dash-name_of_arch mips s = elim (Bool-cases (is_mips_r6 s)) [
  | inl e ↦ rw e refl
  | inr e ↦ rw e (has_dash-get_arch_type_name mips)
]
has_dash-name_of_arch mipsel s = elim (Bool-cases (is_mips_r6 s)) [
  | inl e ↦ rw e refl
  | inr e ↦ rw e (has_dash-get_arch_type_name mipsel)
]
has_dash-name_of_arch mips64 s = elim (Bool-cases (is_mips_r6 s)) [
  | inl e ↦ rw e refl
  | inr e ↦ rw e (has_dash-get_arch_type_name mips64)
]
has_dash-name_of_arch mips64el s = elim (Bool-cases (is_mips_r6 s)) [
  | inl e ↦ rw e refl
  | inr e ↦ rw e (has_dash-get_arch_type_name mips64el)
]
has_dash-name_of_arch msp430 s = has_dash-get_arch_type_name msp430
has_dash-name_of_arch ppc s = has_dash-get_arch_type_name ppc
has_dash-name_of_arch ppcle s = has_dash-get_arch_type_name ppcle
has_dash-name_of_arch ppc64 s = has_dash-get_arch_type_name ppc64
has_dash-name_of_arch ppc64le s = has_dash-get_arch_type_name ppc64le
has_dash-name_of_arch r600 s = has_dash-get_arch_type_name r600
has_dash-name_of_arch amdgcn s = has_dash-get_arch_type_name amdgcn
has_dash-name_of_arch riscv32 s = has_dash-get_arch_type_name riscv32
has_dash-name_of_arch riscv64 s = has_dash-get_arch_type_name riscv64
has_dash-name_of_arch toyriscv32 s = has_dash-get_arch_type_name toyriscv32
has_dash-name_of_arch toyriscv64 s = has_dash-get_arch_type_name toyriscv64
has_dash-name_of_arch sparc s = has_dash-get_arch_type_name sparc
has_dash-name_of_arch sparcv9 s = has_dash-get_arch_type_name sparcv9
has_dash-name_of_arch sparcel s = has_dash-get_arch_type_name sparcel
has_dash-name_of_arch systemz s = has_dash-get_arch_type_name systemz
has_dash-name_of_arch tce s = has_dash-get_arch_type_name tce
has_dash-name_of_arch tcele s = has_dash-get_arch_type_name tcele
has_dash-name_of_arch thumb s = has_dash-get_arch_type_name thumb
has_dash-name_of_arch thumbeb s = has_dash-get_arch_type_name thumbeb
has_dash-name_of_arch x86 s = has_dash-get_arch_type_name x86
has_dash-name_of_arch x86_64 s = has_dash-get_arch_type_name x86_64
has_dash-name_of_arch xcore s = has_dash-get_arch_type_name xcore
has_dash-name_of_arch nvptx s = has_dash-get_arch_type_name nvptx
has_dash-name_of_arch nvptx64 s = has_dash-get_arch_type_name nvptx64
has_dash-name_of_arch le32 s = has_dash-get_arch_type_name le32
has_dash-name_of_arch le64 s = has_dash-get_arch_type_name le64
has_dash-name_of_arch amdil s = has_dash-get_arch_type_name amdil
has_dash-name_of_arch amdil64 s = has_dash-get_arch_type_name amdil64
has_dash-name_of_arch hsail s = has_dash-get_arch_type_name hsail
has_dash-name_of_arch hsail64 s = has_dash-get_arch_type_name hsail64
has_dash-name_of_arch spir s = has_dash-get_arch_type_name spir
has_dash-name_of_arch spir64 s = has_dash-get_arch_type_name spir64
has_dash-name_of_arch spirv32 s = has_dash-get_arch_type_name spirv32
has_dash-name_of_arch spirv64 s = has_dash-get_arch_type_name spirv64
has_dash-name_of_arch kalimba s = has_dash-get_arch_type_name kalimba
has_dash-name_of_arch shave s = has_dash-get_arch_type_name shave
has_dash-name_of_arch lanai s = has_dash-get_arch_type_name lanai
has_dash-name_of_arch wasm32 s = has_dash-get_arch_type_name wasm32
has_dash-name_of_arch wasm64 s = has_dash-get_arch_type_name wasm64
has_dash-name_of_arch renderscript32 s = has_dash-get_arch_type_name renderscript32
has_dash-name_of_arch renderscript64 s = has_dash-get_arch_type_name renderscript64
has_dash-name_of_arch ve s = has_dash-get_arch_type_name ve
