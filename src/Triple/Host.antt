-- ===== src/Triple/Host.antt =====
-- What llvm/lib/Support/Triple.cpp takes from outside: the parser of ARM architecture names
-- (ARM::parseArchISA and the others) and the byte order of the host.
use toy_riscv.Base.{Text, Bool, ℕ}

-- ARM::ISAKind
pub data IsaKind : Type 0 where
  isa_invalid isa_arm isa_thumb isa_aarch64 : IsaKind

-- ARM::EndianKind
pub data EndianKind : Type 0 where
  endian_invalid endian_little endian_big : EndianKind

-- ARM::ArchKind, as far as parseSubArch tells the kinds apart.
pub data ArmArchKind : Type 0 where
  kind_armv4 kind_armv4t kind_armv5t kind_armv5te kind_iwmmxt kind_iwmmxt2 : ArmArchKind
  kind_xscale kind_armv5tej kind_armv6 kind_armv6k kind_armv6kz kind_armv6t2 : ArmArchKind
  kind_armv6m kind_armv7a kind_armv7r kind_armv7ve kind_armv7k kind_armv7m : ArmArchKind
  kind_armv7s kind_armv7em kind_armv8a kind_armv8_1a kind_armv8_2a kind_armv8_3a : ArmArchKind
  kind_armv8_4a kind_armv8_5a kind_armv8_6a kind_armv8_7a kind_armv8_8a kind_armv9a : ArmArchKind
  kind_armv9_1a kind_armv9_2a kind_armv9_3a kind_armv8r kind_armv8m_baseline kind_armv8m_mainline :
      ArmArchKind
  kind_armv8_1m_mainline kind_other : ArmArchKind

pub record Host : Type 0 where
  pub is_little_endian_host : Bool
  pub parse_arch_isa : Text → IsaKind
  pub parse_arch_endian : Text → EndianKind
  pub get_canonical_arch_name : Text → Text
  -- ARM::parseArchProfile gives ARM::ProfileKind::M
  pub has_profile_m : Text → Bool
  pub parse_arch_version : Text → ℕ
  pub parse_arm_arch_kind : Text → ArmArchKind
