-- ===== src/Gpu/Timing/Grid.antt =====
-- The grid of crates/pb-gpu/src/timing.rs.
use dev_browse.Prelude.{ℕ, ◌+◌, ◌*◌, ◌/◌, ◌≤◌, ◌<◌, ◌≡◌, refl, arith}
use dev_browse.Gpu.Timing.{locked_gpu_timer_profile, quantize_ns, quantize_gpu_timer_ns}

-- A quantized timestamp is a multiple of 2 ms, at most the reading and less than 2 ms before it;
-- quantizing it again changes nothing, and the locked profile gives the same.
pub quantize-grid :
    (raw_ns : ℕ)
    → let q = quantize_gpu_timer_ns raw_ns in
      ((k : ℕ) × (q ≡ k * 2_000_000))
      × (q ≤ raw_ns)
      × (raw_ns < q + 2_000_000)
      × (quantize_gpu_timer_ns q ≡ q)
      × (quantize_ns locked_gpu_timer_profile raw_ns ≡ q)
unfolding quantize_gpu_timer_ns quantize_ns locked_gpu_timer_profile
quantize-grid raw_ns = ((raw_ns / 2_000_000, refl), omega arith, omega arith, omega arith, refl)
