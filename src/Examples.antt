-- ===== src/Examples.antt =====
-- Runs on concrete inputs: tests of the definitions, and instances of the theorems.
mod Scenario
mod Machine
mod Runs
mod Sharing
mod Reading
mod Faults
mod Mapped
mod Together
mod Masked
mod Paths
mod Witnesses
mod Calls
mod Launch
