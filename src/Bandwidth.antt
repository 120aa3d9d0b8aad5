-- ===== src/Bandwidth.antt =====
-- `scenarios/check_net_bandwidth.py`: the traffic of a network while transactions spread over it.
pub mod Counter
pub mod Stats
pub mod Polling
pub mod Orders
mod Tests
pub mod Connections
pub mod Propagation
pub mod Mining
pub mod Transaction
pub mod Broadcast
pub mod Averages
