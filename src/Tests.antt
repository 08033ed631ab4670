-- ===== src/Tests.antt =====
-- Concrete runs, and each theorem with hypotheses applied where they hold.
mod Setup
mod Files
mod Tree
mod Paths
mod Schemas
mod Table
mod ByPath
mod Overlays
mod Layers
mod Hosts
mod Links
