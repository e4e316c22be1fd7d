-- ===== src/Gc/Examples.antt =====
-- pkg/custom_gc.go with 80 percent, and what it does where the product wraps around.
use service_template.Base.{◌*◌, ◌/◌, ◌^◌, ◌≤◌, true, ◌≡◌, refl, ◌↔◌, arith}
use service_template.Gc.{MemStats, mul_uint64, check_and_run_gc}
use service_template.Gc.Bounds.{check_and_run_gc-bounds}

abbrev stats : MemStats
stats = record { sys = 1000; heap_alloc = 800 }

check_and_run_gc-bounds_example :
    (check_and_run_gc 80 stats ≡ true) ↔ (stats.sys * 80 / 100 ≤ stats.heap_alloc)
check_and_run_gc-bounds_example = check_and_run_gc-bounds 80 stats (omega arith) (omega arith)

-- With the product at 2^64 the share is 0 and any heap is large enough.
wraps_around : check_and_run_gc 128 (record { sys = 2 ^ 57; heap_alloc = 0 }) ≡ true
unfolding check_and_run_gc mul_uint64
wraps_around = refl
