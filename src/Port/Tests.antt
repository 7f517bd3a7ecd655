-- ===== src/Port/Tests.antt =====
-- A task on a stack of 64 words.
use ucosii_arm64_qemu.Prelude.{◌+◌, ◌-◌, ◌*◌, ◌/◌, ◌%◌, ◌≤◌, ◌≡◌, if◌then◌else◌, arith}
use ucosii_arm64_qemu.Port.{Memory, os_task_stk_init}
use ucosii_arm64_qemu.Port.Frame.{inside, first_word, os_task_stk_init_lem}

abbrev blank : Memory
blank x = 9

os_task_stk_init_lem_example :
    let (p_stk, m') = os_task_stk_init 111 222 333 (4096 + 8 * (64 - 1)) blank in
    (p_stk % 16 ≡ 0)
    × (4096 ≤ p_stk)
    × (p_stk + 34 * 8 ≤ 4096 + 8 * 64)
    × (m' 4400 ≡ (if inside p_stk 34 4400 then first_word 222 333 111 ((4400 - p_stk) / 8) else 9))
os_task_stk_init_lem_example = os_task_stk_init_lem 111 222 333 4096 64 blank 4400 (omega arith)
