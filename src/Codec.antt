-- ===== src/Codec.antt =====
-- modules/codec: unit permutation, residuals and the transforms of frames.
pub mod Permute
pub mod Residual
pub mod Planes
pub mod Frame
pub mod Gather
pub mod Reconstruct
pub mod Policy
mod Examples
mod Runs
