-- ===== src/Lens.antt =====
-- src/lens_*.c: what each kind of lens keeps, and how it is recorded and read.
pub mod Float
pub mod Counter
pub mod Gauge
pub mod Histo
pub mod Quantile
pub mod Dist
mod Tests
