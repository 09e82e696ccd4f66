-- ===== src/Scaler.antt =====
-- pkg/resource: node types and their choice, the autoscaler, and the managed fleet.
pub mod NodeTypes
pub mod Catalog
pub mod Provider
pub mod Pressure
pub mod Autoscaler
pub mod Manager
pub mod Bootstrap
pub mod Polling
pub mod Aws
pub mod Gcp
