-- ===== src/Measure.antt =====
-- src/unhalted/measure: the offline reports on what the two policies do with the same failures.
-- `render` and the files report.py and generate.py, which print and make up a batch, are not here.
pub mod Outcomes
pub mod Baseline
pub mod Calibration
pub mod Compare
pub mod Buckets
pub mod Replay
pub mod Marks
pub mod Columns
pub mod Bands
