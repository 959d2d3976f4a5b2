-- ===== src/Examples.antt =====
-- Tests, and the theorems at concrete inputs.
mod Stacks
mod Places
mod Generators
mod Contexts
mod Disks
mod Images
mod Ram
mod Locks
mod Futures
mod Builds
mod Lives
mod Tasks
mod Rounds
mod Turns
mod Awaits
mod Waits
