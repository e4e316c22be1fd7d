-- ===== src/Gc.antt =====
-- pkg/custom_gc.go: the loop that gives memory back to the system. What the runtime reports is given; its
-- numbers and the percentage are of the type uint64.
pub mod Bounds
mod Examples
use service_template.Base.{
  ℕ, suc, ◌*◌, ◌/◌, ◌%◌, ◌^◌, leb, Bool, true, false, List, [], ◌∷◌, if◌then◌else◌,
}

-- `runtime.MemStats`, of which `Sys` and `HeapAlloc` are read.
pub record MemStats : Type 0 where
  pub sys : ℕ
  pub heap_alloc : ℕ

-- The product of two numbers of the type uint64, which wraps around.
unfoldable pub mul_uint64 : ℕ → ℕ → ℕ
mul_uint64 a b = a * b % 2 ^ 64

-- Whether `checkAndRunGC` calls `FreeOSMemory`.
unfoldable pub check_and_run_gc : (heap_size_percent : ℕ) → MemStats → Bool
check_and_run_gc heap_size_percent stats =
    leb (mul_uint64 stats.sys heap_size_percent / 100) stats.heap_alloc

-- What the `select` of a turn receives.
pub data Turn : Type 0 where
  closer_closed : Turn
  context_done : Turn
  ticked : MemStats → Turn

-- How often the goroutine has called `FreeOSMemory`, and whether it has returned.
pub record Compaction : Type 0 where
  pub freed : ℕ
  pub returned : Bool

unfoldable pub memory_compaction_cycle : (heap_size_percent freed : ℕ) → List Turn → Compaction
memory_compaction_cycle percent freed [] = record { freed = freed; returned = false }
memory_compaction_cycle percent freed (closer_closed ∷ turns) = record {
  freed = freed;
  returned = true;
}
memory_compaction_cycle percent freed (context_done ∷ turns) = record {
  freed = freed;
  returned = true;
}
memory_compaction_cycle percent freed (ticked stats ∷ turns) =
    memory_compaction_cycle percent (if check_and_run_gc percent stats then suc freed else freed)
      turns
