-- ===== src/Cache/Tests.antt =====
-- A range over three cache lines.
use ucosii_arm64_qemu.Prelude.{◌≡◌, some, [], ◌∷◌, ◌++◌, arith}
use ucosii_arm64_qemu.Cache.{
  Op, dsb, isb, cache_clean_range, cache_invalidate_range, cache_clean_invalidate_range,
}
use ucosii_arm64_qemu.Cache.Lines.{covering, cache_ranges_lem}

cache_ranges_lem_example :
    (cache_clean_range 100 100 ≡ some (covering Op.cvac 100 100 ++ dsb ∷ []))
    × (cache_invalidate_range 100 100 ≡ some (covering Op.ivac 100 100 ++ dsb ∷ isb ∷ []))
    × (cache_clean_invalidate_range 100 100 ≡ some (covering Op.civac 100 100 ++ dsb ∷ isb ∷ []))
cache_ranges_lem_example = cache_ranges_lem 100 100 (omega arith) (omega arith)
