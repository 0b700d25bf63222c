-- ===== src/Loader.antt =====
-- hetsched/pkg/loader: nodes, workloads and sites from the rows of CSV files. What encoding/csv,
-- time.Parse and the number parsers return is a parameter; where the process ends, by log.Fatalf or
-- an index out of range, the result is `none`.
pub mod Csv
pub mod Header
pub mod Nodes
pub mod Workloads
pub mod Sites
pub mod Clamp
pub mod Samples
