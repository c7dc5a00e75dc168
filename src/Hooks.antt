-- ===== src/Hooks.antt =====
-- The state of the React hooks under frontend/hooks. A hook's `setState` calls are functions on its
-- state; the promise callbacks take the flag `controller.signal.aborted` as it is when they run.
mod Tests
pub mod TenantImeis
pub mod Requests
pub mod Devices
pub mod Overview
pub mod Certificate
pub mod Privileges
