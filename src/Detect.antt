-- ===== src/Detect.antt =====
-- detect: the detection pipeline. Its authorization gate is modelled.
pub mod AuthzGate
pub mod Nodebox
pub mod Redact
pub mod LiveTail
pub mod Examples
