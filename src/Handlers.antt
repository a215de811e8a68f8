-- ===== src/Handlers.antt =====
-- The handlers of the resource manager (ovs/driver.go), a module for each group, and its dispatch.
pub mod Bridges
pub mod Stacking
pub mod Delete
pub mod Create
pub mod PortMaps
pub mod Endpoint
pub mod PortRules
pub mod Reconcile
pub mod Dispatch
pub mod Keeps
pub mod KeepsNetwork
pub mod KeepsReconcile
pub mod WellFormed
pub mod KeepsDispatch
pub mod Invariant
pub mod Isolation
pub mod Unchanged
pub mod Release
pub mod Ends
