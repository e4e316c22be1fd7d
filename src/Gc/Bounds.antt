-- ===== src/Gc/Bounds.antt =====
-- pkg/custom_gc.go: the comparison of the heap with a share of the memory, in 64 bits.
use service_template.Base.{
  ℕ, ◌*◌, ◌/◌, ◌^◌, ◌≤◌, ◌<◌, leb, true, ◌↔◌, ◌≡◌, sym, ap, ◌∙◌, le→leb, leb→le, arith,
}
use native.Mathlib.Nat.{mul-le-mul, mod-eq_of_lt}
use service_template.Gc.{MemStats, mul_uint64, check_and_run_gc}

mul_uint64-bounds : (a b : ℕ) → a < 2 ^ 57 → b ≤ 100 → mul_uint64 a b ≡ a * b
unfolding mul_uint64
mul_uint64-bounds a b h k =
    let within : a ≤ 2 ^ 57 = omega (arith, h) in mod-eq_of_lt (omega (arith, mul-le-mul within k))

-- A percentage of at most 100 of a memory of less than 2^57 bytes does not wrap around: `checkAndRunGC`
-- frees memory exactly if the heap has at least that percentage of it, rounded down.
pub check_and_run_gc-bounds :
    (percent : ℕ) (stats : MemStats)
    → percent ≤ 100
    → stats.sys < 2 ^ 57
    → (check_and_run_gc percent stats ≡ true) ↔ (stats.sys * percent / 100 ≤ stats.heap_alloc)
unfolding check_and_run_gc
check_and_run_gc-bounds percent stats p s =
    let product = mul_uint64-bounds stats.sys percent s p in
    (
      λ h.
          leb→le (stats.sys * percent / 100) stats.heap_alloc
            (ap (λ x. leb (x / 100) stats.heap_alloc) (sym product) ∙ h),
      λ h.
          ap (λ x. leb (x / 100) stats.heap_alloc) product
          ∙ le→leb (stats.sys * percent / 100) stats.heap_alloc h,
    )
