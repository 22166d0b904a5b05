-- ===== src/Samples.antt =====
-- Concrete trees, children, sockets and texts, at which the theorems are applied: each interface of
-- the model is filled, with its laws.
pub mod Trees
pub mod System
pub mod Sockets
pub mod Data
mod StartupTests
mod WorkerTests
mod ManagerTests
mod ClientTests
mod StartTests
pub mod RegistryTests
mod FailureTests
mod SurvivalTests
mod ServiceTests
mod ThreadTests
mod RunTests
mod InTurnTests
