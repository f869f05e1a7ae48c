-- ===== src/OpenApi.antt =====
-- pkg/generated/openapi/zz_generated.openapi.go: the definitions that the server publishes.
pub mod Schema
pub mod Tasks
pub mod Groups
pub mod Resources
pub mod WriteOptions
pub mod ReadOptions
pub mod Selectors
pub mod Objects
pub mod Metadata
pub mod Status
pub mod Events
pub mod Tables
pub mod Times
pub mod Runtime
pub mod Quantity
pub mod Definitions
pub mod Closed
