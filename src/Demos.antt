-- ===== src/Demos.antt =====
-- The demo scripts under examples/, one module each, over the parts that they share.
pub mod Gateway
pub mod Pd
pub mod Tp
pub mod Ep
pub mod Dp
pub mod Qa
pub mod Streaming
pub mod Prefix
