-- ===== src/Examples.antt =====
-- Runs of the models at concrete inputs and instances of the theorems: the data, and one child for
-- each part of the program.
pub mod Data
pub mod Engine
pub mod Decisions
pub mod Steps
pub mod Snapshots
pub mod Headers
pub mod Compile
pub mod Pii
pub mod Wire
pub mod Requests
pub mod Proxied
pub mod Processed
pub mod Cluster
