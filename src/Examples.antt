-- ===== src/Examples.antt =====
-- The theorems at concrete inputs, and tests of the definitions that they are about.
mod Toy
mod Threads
mod Choices
mod Slots
mod Operations
mod Accelerated
mod Loading
mod Images
mod Interleaving
mod Tools
mod Diagnostics
mod Chains
mod Signals
mod Session
