-- ===== src/Tests.antt =====
-- A small system in memory, and the theorems at concrete inputs.
mod Memory
mod Ips
mod System
mod Machines
mod Outcomes
mod Deletions
mod Texts
mod Claims
mod Runs
mod Entries
mod Owners
mod Refusals
mod Connections
mod Standing
mod Starting
mod Scripts
mod Turning
mod Wholes
mod Registers
mod Clusters
mod TwoIps
mod Rivals
