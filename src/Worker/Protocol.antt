-- ===== src/Worker/Protocol.antt =====
-- The order of the calls that one attempt makes.
pub mod Phase
pub mod Parts
pub mod Order
