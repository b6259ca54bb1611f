-- ===== src/Providers.antt =====
-- providers/: vendors with health, cooldown and budget, and the routing and failover among them.
pub mod State
pub mod Base
pub mod Implementations
pub mod Registry
pub mod Manager
pub mod Persistence
pub mod Routing
mod Examples
