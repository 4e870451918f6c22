-- ===== src/Dash.antt =====
-- include/dash and src/dash: the operations that an application calls.
pub mod CompletionBus
pub mod Provider
pub mod Delivery
pub mod Execute
pub mod Ids
pub mod Unshared
pub mod Answered
pub mod Pending
