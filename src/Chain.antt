-- ===== src/Chain.antt =====
-- The shape of a sorted linked list on a heap, and what a list of keys and values stands for: the
-- contents of a sorted map.
pub mod Spec
pub mod Shape
pub mod Update
pub mod Sorted
pub mod Quiet
pub mod Place
pub mod Cover
pub mod Meaning
pub mod Transfer
