-- ===== src/Benchmark.antt =====
-- src/benchmark_main.cpp: latencies of messages that travel to another node and back.
pub mod Histogram
