-- ===== src/Irq/Dispatch.antt =====
-- What interrupt dispatch guarantees.
use ucosii_arm64_qemu.Prelude.{
  ℕ, ◌%◌, ◌<◌, ◌≡◌, ◌≢◌, refl, Option, none, some, List, true, false, ltb, leb, ◌==◌, if◌then◌else◌,
  length, arith, Bool-cases, inl, inr, get_or-set_self, get_or-set_ne, bit_and, bit_and_1023,
}
use ucosii_arm64_qemu.Irq.{bsp_int_vect_set, bsp_int_handler, irq_dispatch}

module _ {ℓ κ} {F : Type ℓ} {S : Type κ} (run : F → ℕ → S → S) (table : List (Option F)) where
  -- After a handler was registered for an interrupt, dispatching that interrupt runs the handler once
  -- with its number and ends the interrupt with the value that was acknowledged; every other
  -- acknowledged value is dispatched as before. The table has its 256 entries.
  pub irq_dispatch-vect_set :
      (int_id : ℕ) (f : F) (raw : ℕ) (s : S)
      → length table ≡ 256
      → int_id < 256
      → irq_dispatch run (bsp_int_vect_set int_id f table) raw s ≡ (
          if raw % 1024 == int_id then (run f int_id s, some raw) else irq_dispatch run table raw s)
  unfolding irq_dispatch bsp_int_handler bsp_int_vect_set
  irq_dispatch-vect_set int_id f raw s full small =
      let id_is : bit_and raw 1023 ≡ raw % 1024 = bit_and_1023 raw in
      let room : ltb int_id 256 ≡ true = ground arith in
      elim (Bool-cases (raw % 1024 == int_id)) [
        | inl same ↦
            let at : raw % 1024 ≡ int_id = ground arith in
            let kept : leb 1020 int_id ≡ false = ground arith in
            let stored = get_or-set_self table int_id (some f) none (omega arith) in
            rw (id_is, room, at, kept, room, stored) (ground arith)
        | inr other ↦
            let apart : int_id ≢ raw % 1024 = λ e. ground arith in
            rw (id_is, room, other, get_or-set_ne table int_id (raw % 1024) (some f) none apart)
              refl
      ]
