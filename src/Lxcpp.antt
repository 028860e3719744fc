-- ===== src/Lxcpp.antt =====
-- The container library (libs/lxcpp): how it finds the control group of a process, the configuration and the life of a
-- container, and the guard that watches it.
pub mod Cgroups
pub mod UserNamespace
pub mod ProvisionConfig
pub mod NetworkConfig
pub mod ContainerConfig
pub mod Container
pub mod Relay
pub mod Guard
