-- ===== src/Tests.antt =====
-- Concrete inputs, and the results of the development at them.
pub mod Data
pub mod Rounds
pub mod Orders
pub mod Settings
pub mod Screens
