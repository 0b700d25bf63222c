-- ===== src/Core.antt =====
-- hetsched/pkg/core, a module for each part of the package.
pub mod Types
pub mod Node
pub mod ArgMin
pub mod Candidates
pub mod Class
pub mod Policy
pub mod Sim
pub mod Strategy
