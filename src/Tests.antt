-- ===== src/Tests.antt =====
-- Tests by evaluation, and the theorems at concrete inputs.
mod Samples
mod Buffers
mod Balancers
mod Filters
mod Rings
mod Meshes
mod Pods
mod Waits
mod Leaving
mod Lines
mod Nodes
mod Sockets
mod Bridges
mod Crowds
mod Societies
