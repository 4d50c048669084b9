-- ===== src/Examples.antt =====
-- Concrete inputs for the theorems, and the theorems applied to them.
pub mod Sources
pub mod Nodes
pub mod Runs
pub mod Scans
pub mod Records
pub mod Trees
pub mod TreeRuns
pub mod Whole
pub mod WholeRun
pub mod Names
