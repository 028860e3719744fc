-- ===== src/Server.antt =====
-- The daemon (server/): its components, each behind the module of its name.
pub mod ProxyPolicy
pub mod InputMonitor
pub mod Provision
pub mod Host
pub mod Zone
pub mod Manager
pub mod HostIpcConnection
pub mod HostSample
