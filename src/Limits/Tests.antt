-- ===== src/Limits/Tests.antt =====
-- Images against the limits of a common adapter (src/limits.rs).
use gpu_info_rs.Prelude.{true}
use gpu_info_rs.Limits.{GpuLimits}

abbrev adapter : GpuLimits
adapter = record {
  max_tile_dim = 16384;
  max_buffer_bytes = 134217728;
  total_memory = 25769803776;
  available_memory = 20401094656;
  detected = true;
}
