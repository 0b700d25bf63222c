-- ===== src/RunSim.antt =====
-- hetsched/cmd/run_sim.go: the sweep of simulator runs. Flags, files and the log are left out; what
-- is computed from them is here.
pub mod Flags
pub mod Arrivals
pub mod Prepare
pub mod Summary
pub mod Runs
pub mod Modes
pub mod Figures
pub mod Waves
pub mod Conservation
pub mod Samples
