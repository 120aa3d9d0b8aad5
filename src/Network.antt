-- ===== src/Network.antt =====
-- `utils/create_network.py`: the generator of random networks.
pub mod Args
pub mod Attempt
pub mod Build
pub mod Validate
pub mod Search
pub mod Capacity
pub mod Yaml
pub mod Options
pub mod Main
mod Tests
