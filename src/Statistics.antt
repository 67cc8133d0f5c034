-- ===== src/Statistics.antt =====
-- src/statistics.rs and rocks-sys/rocks/statistics.cc: the enums that name the counters, and the
-- operations of `Statistics`.
pub mod Ticker
pub mod Histogram
pub mod TickerNames
pub mod HistogramNames
pub mod Counters
