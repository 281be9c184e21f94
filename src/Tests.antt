-- ===== src/Tests.antt =====
-- Runs of the definitions at concrete inputs, and the theorems at them.
mod Accounts
mod Blocks
mod Chains
mod Calls
mod Coding
mod Storing
mod Writing
mod Paying
mod Keeping
mod Machine
mod Manager
mod Messages
mod Stores
mod Tools
mod Tries
mod Words
mod Processing
mod Peers
mod Mining
mod Choices
mod Public
