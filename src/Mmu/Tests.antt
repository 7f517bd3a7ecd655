-- ===== src/Mmu/Tests.antt =====
-- An address in the second gigabyte.
use ucosii_arm64_qemu.Prelude.{◌≡◌, none, some, ltb, ◌^◌, if◌then◌else◌}
use ucosii_arm64_qemu.Mmu.{mmu_init}
use ucosii_arm64_qemu.Mmu.Identity.{walk_level1, mmu_init_identity}

mmu_init_identity_example : walk_level1 (mmu_init 0) 1073741829 ≡ (
    if ltb 1073741829 (2 ^ 32)
    then some (1073741829, if ltb 1073741829 (2 ^ 30) then 0 else 255)
    else none)
mmu_init_identity_example = mmu_init_identity 0 1073741829
