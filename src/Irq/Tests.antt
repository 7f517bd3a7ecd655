-- ===== src/Irq/Tests.antt =====
-- A table with one handler, at an interrupt that meets the theorem's hypotheses.
use ucosii_arm64_qemu.Prelude.{
  ℕ, ◌+◌, ◌≡◌, ◌%◌, Option, none, some, replicate, length-replicate, ◌==◌, if◌then◌else◌, arith,
}
use ucosii_arm64_qemu.Irq.{bsp_int_vect_set, irq_dispatch}
use ucosii_arm64_qemu.Irq.Dispatch.{irq_dispatch-vect_set}

-- A handler is a number, which it adds to the state.
abbrev run : ℕ → ℕ → ℕ → ℕ
run f int_id s = s + f

irq_dispatch-vect_set_example :
    irq_dispatch run (bsp_int_vect_set 48 5 (replicate 256 none)) 48 2
    ≡ (if 48 % 1024 == 48 then (7, some 48) else irq_dispatch run (replicate 256 none) 48 2)
irq_dispatch-vect_set_example =
    irq_dispatch-vect_set run (replicate 256 none) 48 5 48 2
      (length-replicate {A = Option ℕ} 256 none) (omega arith)
