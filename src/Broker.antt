-- ===== src/Broker.antt =====
-- plasma/broker/broker: who may run which fixed capability on which target, and once.
pub mod Session
pub mod Json
pub mod Result
pub mod Store
pub mod Registry
pub mod Grant
pub mod Gate
pub mod Possession
pub mod Actions
pub mod Examples
