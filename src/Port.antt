-- ===== src/Port.antt =====
-- The first stack frame of a task and the exception stack, port/os_cpu_c.c. An address is a number of
-- bytes, and the memory gives the 64-bit word that stands at an address. The two functions of assembler
-- that the frame names are arguments.
pub mod Frame
mod Tests
use ucosii_arm64_qemu.Prelude.{
  ℕ, ◌+◌, ◌-◌, ◌*◌, ◌/◌, List, [], ◌∷◌, ◌++◌, ◌==◌, if◌then◌else◌, replicate,
}

abbrev pub Memory : Type 0
Memory = ℕ → ℕ

-- Words at consecutive places.
unfoldable pub store_words : Memory → ℕ → List ℕ → Memory
store_words m addr [] = m
store_words m addr (w ∷ ws) = store_words (λ x. if x == addr then w else m x) (addr + 8) ws

-- SPSR, ELR, X30, X29 to X1, X0 and the padding.
unfoldable pub context : ℕ → ℕ → ℕ → List ℕ
context task p_arg task_return = 5 ∷ task ∷ task_return ∷ replicate 29 0 ++ p_arg ∷ 0 ∷ []

-- The new stack pointer, and the memory.
unfoldable pub os_task_stk_init : ℕ → ℕ → ℕ → ℕ → Memory → ℕ × Memory
os_task_stk_init task_return task p_arg ptos m =
    let p_aligned = (ptos + 8) / 16 * 16 in
    let p_stk = p_aligned - 34 * 8 in (p_stk, store_words m p_stk (context task p_arg task_return))

-- The stack of `size` words at `stk` is cleared; the result is its aligned end.
unfoldable pub os_init_hook_begin : ℕ → ℕ → Memory → ℕ × Memory
os_init_hook_begin stk size m = ((stk + size * 8) / 16 * 16, store_words m stk (replicate size 0))
