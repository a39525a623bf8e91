-- ===== src/Python.antt =====
-- What the scripts use of Python's exceptions and of decoded JSON values. The decoders themselves,
-- `bytes.decode` and `json.loads`, are a parameter: the theorems hold for every decoder.
pub mod Json
pub mod Catch
mod Errors
pub use Errors.*
