-- ===== src/Lightning.antt =====
-- `scenarios/ln_framework/ln.py`: channel policies, and requests to an LND node that are sent until one is
-- answered.
pub mod Policy
pub mod Requests
pub mod Methods
mod Tests
