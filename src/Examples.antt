-- ===== src/Examples.antt =====
-- examples/basic_usage.rs, the program that shows how the library is used. What it prints is not
-- modelled, but for the numbers.
pub mod Logs
pub mod BasicUsage
