-- ===== src/Image.antt =====
-- The image handle (src/image.rs): its allocation, the host upload, and the readback with its padded
-- rows. wgpu, `half` and `bytemuck` are records of operations; the GPU's memory is explicit state.
pub mod Device
pub mod Error
pub mod Host
pub mod Rows
pub mod Readback
mod Tests
