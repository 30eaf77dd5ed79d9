-- ===== src/Tests.antt =====
-- Tests on a small simulated system, and the theorems at concrete inputs.
mod Sim
mod Sessions
mod Crowded
mod Discovery
mod Reporting
mod Reading
mod Accessing
mod Closing
mod Locking
mod Configuring
mod Disk
mod Cards
mod Scanning
mod Opening
mod Filling
