-- ===== src/Gpu/Timing.antt =====
-- crates/pb-gpu/src/timing.rs: GPU timestamps on a grid of 2 ms.
pub mod Grid
use dev_browse.Prelude.{ℕ, ◌*◌, ◌/◌}

abbrev pub gpu_timer_quantum_ns : ℕ
gpu_timer_quantum_ns = 2_000_000

-- The label of the profile is a constant that nothing reads.
pub record GpuTimerProfile : Type 0 where
  pub quantum_ns : ℕ

unfoldable pub locked_gpu_timer_profile : GpuTimerProfile
locked_gpu_timer_profile = record { quantum_ns = gpu_timer_quantum_ns }

unfoldable pub quantize_ns : GpuTimerProfile → ℕ → ℕ
quantize_ns p raw_ns = raw_ns / p.quantum_ns * p.quantum_ns

unfoldable pub quantize_gpu_timer_ns : ℕ → ℕ
quantize_gpu_timer_ns raw_ns = raw_ns / gpu_timer_quantum_ns * gpu_timer_quantum_ns

pub data GpuTimerSurface : Type 0 where
  web_gpu_query_set_timestamp web_gl_disjoint_timer_query web_gl_client_wait_sync : GpuTimerSurface
