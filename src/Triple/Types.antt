-- ===== src/Triple/Types.antt =====
-- The enumerations of llvm/include/llvm/ADT/Triple.h. A constructor is the enumerator in lower case.

-- Triple::ArchType
pub data ArchType : Type 0 where
  unknown_arch arm armeb aarch64 aarch64_be aarch64_32 arc avr bpfel : ArchType
  bpfeb csky hexagon m68k mips mipsel mips64 mips64el msp430 : ArchType
  ppc ppcle ppc64 ppc64le r600 amdgcn riscv32 riscv64 toyriscv32 : ArchType
  toyriscv64 sparc sparcv9 sparcel systemz tce tcele thumb thumbeb : ArchType
  x86 x86_64 xcore nvptx nvptx64 le32 le64 amdil amdil64 : ArchType
  hsail hsail64 spir spir64 spirv32 spirv64 kalimba shave lanai : ArchType
  wasm32 wasm64 renderscript32 renderscript64 ve : ArchType

-- Triple::SubArchType
pub data SubArchType : Type 0 where
  no_sub_arch arm_v9_3a arm_v9_2a arm_v9_1a arm_v9 arm_v8_8a arm_v8_7a arm_v8_6a arm_v8_5a :
      SubArchType
  arm_v8_4a arm_v8_3a arm_v8_2a arm_v8_1a arm_v8 arm_v8r arm_v8m_baseline arm_v8m_mainline
        arm_v8_1m_mainline :
      SubArchType
  arm_v7 arm_v7em arm_v7m arm_v7s arm_v7k arm_v7ve arm_v6 arm_v6m arm_v6k : SubArchType
  arm_v6t2 arm_v5 arm_v5te arm_v4t aarch64_arm64e kalimba_v3 kalimba_v4 kalimba_v5 mips_r6 :
      SubArchType
  ppc_spe : SubArchType

-- Triple::VendorType
pub data VendorType : Type 0 where
  unknown_vendor apple pc scei freescale ibm imagination_technologies mips_technologies nvidia :
      VendorType
  csr myriad amd mesa suse open_embedded : VendorType

-- Triple::OsType
pub data OsType : Type 0 where
  unknown_os ananas cloudabi darwin dragonfly freebsd fuchsia ios kfreebsd : OsType
  linux lv2 macosx netbsd openbsd solaris win32 zos haiku : OsType
  minix rtems nacl aix cuda nvcl amdhsa ps4 elfiamcu : OsType
  tvos watchos mesa3d contiki amdpal hermit_core hurd wasi emscripten : OsType

-- Triple::EnvironmentType
pub data EnvironmentType : Type 0 where
  unknown_environment gnu gnuabin32 gnuabi64 gnueabi gnueabihf gnux32 gnuilp32 code16 :
      EnvironmentType
  eabi eabihf android musl musleabi musleabihf muslx32 msvc itanium : EnvironmentType
  cygnus coreclr simulator macabi : EnvironmentType

-- Triple::ObjectFormatType
pub data ObjectFormatType : Type 0 where
  unknown_object_format coff elf goff macho wasm xcoff : ObjectFormatType
