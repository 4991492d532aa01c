-- ===== src/Batch/Version.antt =====
-- crates/basic_types/src/protocol_version.rs and vm.rs, and the two functions of crates/multivm that
-- the verifier asks about a version.
use eravm_airbender_verifier.Common.{
  ℕ, Bool, true, false, ltb, leb, ◌==◌, if◌then◌else◌, Outcome, ok, panic, unsupported_vm_version,
}

-- `Version0` to `Version32`, by number.
pub record ProtocolVersionId : Type 0 where
  pub number : ℕ

unfoldable pub latest : ProtocolVersionId
latest = record { number = 31 }

abbrev pub version_eqb : ProtocolVersionId → ProtocolVersionId → Bool
version_eqb v w = v.number == w.number

unfoldable pub is_pre_gateway : ProtocolVersionId → Bool
is_pre_gateway v = ltb v.number 26

unfoldable pub is_pre_medium_interop : ProtocolVersionId → Bool
is_pre_medium_interop v = ltb v.number 31

unfoldable pub is_post_1_5_0 : ProtocolVersionId → Bool
is_post_1_5_0 v = leb 23 v.number

pub data VmVersion : Type 0 where
  m5_without_refunds m5_with_refunds m6_initial m6_bug_with_compression_fixed : VmVersion
  vm1_3_2 vm_virtual_blocks vm_virtual_blocks_refunds_enhancement : VmVersion
  vm_boojum_integration vm1_4_1 vm1_4_2 vm1_5_0_small_bootloader_memory : VmVersion
  vm1_5_0_increased_bootloader_memory vm_gateway vm_evm_emulator : VmVersion
  vm_ec_precompiles vm_interop vm_medium_interop : VmVersion

-- `From<ProtocolVersionId> for VmVersion`: the last version before each change.
unfoldable pub vm_version : ProtocolVersionId → VmVersion
vm_version v =
    if leb v.number 1
    then m5_without_refunds
    else (if leb v.number 3
        then m5_with_refunds
        else (if leb v.number 4
            then m6_initial
            else (if leb v.number 6
                then m6_bug_with_compression_fixed
                else (if leb v.number 12
                    then vm1_3_2
                    else (if leb v.number 15
                        then vm_virtual_blocks
                        else (if leb v.number 17
                            then vm_virtual_blocks_refunds_enhancement
                            else (if leb v.number 19
                                then vm_boojum_integration
                                else (if leb v.number 20
                                    then vm1_4_1
                                    else (if leb v.number 22
                                        then vm1_4_2
                                        else (if leb v.number 23
                                            then vm1_5_0_small_bootloader_memory
                                            else (if leb v.number 25
                                                then vm1_5_0_increased_bootloader_memory
                                                else (if leb v.number 26
                                                    then vm_gateway
                                                    else (if leb v.number 27
                                                        then vm_evm_emulator
                                                        else (if leb v.number 28
                                                            then vm_ec_precompiles
                                                            else (if leb v.number 30
                                                            then vm_interop
                                                            else vm_medium_interop)))))))))))))))

-- `FastVmVersion::try_from(..).is_ok()`
abbrev pub has_fast_version : VmVersion → Bool
has_fast_version vm1_5_0_increased_bootloader_memory = true
has_fast_version vm_gateway = true
has_fast_version vm_evm_emulator = true
has_fast_version vm_ec_precompiles = true
has_fast_version vm_interop = true
has_fast_version vm_medium_interop = true
has_fast_version _ = false

unfoldable pub is_supported_by_fast_vm : ProtocolVersionId → Bool
unfolding vm_version
is_supported_by_fast_vm v = has_fast_version (vm_version v)

unfoldable pub used_bootloader_memory_bytes : VmVersion → Outcome ℕ
used_bootloader_memory_bytes vm1_5_0_small_bootloader_memory = ok 59000000
used_bootloader_memory_bytes vm1_5_0_increased_bootloader_memory = ok 63800000
used_bootloader_memory_bytes vm_gateway = ok 63800000
used_bootloader_memory_bytes vm_evm_emulator = ok 63800000
used_bootloader_memory_bytes vm_ec_precompiles = ok 63800000
used_bootloader_memory_bytes vm_interop = ok 63800000
used_bootloader_memory_bytes vm_medium_interop = ok 63800000
used_bootloader_memory_bytes _ = panic unsupported_vm_version
