-- ===== src/Core.antt =====
-- modules/core: errors, element types, little-endian integers, tensor extents, object ids and
-- permutation groups.
pub mod Error
pub mod Oid
pub mod Kind
pub mod Topology
pub mod Dtype
pub mod Endian
pub mod Tensor
pub mod Permutation
mod Examples
