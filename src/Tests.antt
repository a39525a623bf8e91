-- ===== src/Tests.antt =====
-- Runs of the model on small inputs, and the theorems at concrete data.
mod Samples
mod Ttft
mod Throughput
mod Demos
mod RealEngine
mod Hardware
mod Logs
mod Streaming
mod Servers
mod Setup
mod RunMain
mod Prefix
mod Plot
mod LongContext
mod Workload
mod Scan
mod Pool
mod Script
mod Mains
