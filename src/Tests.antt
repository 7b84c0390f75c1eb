-- ===== src/Tests.antt =====
-- Each theorem of the results applied at a concrete input, and runs of the definitions.
mod DriveIds
mod Scopes
mod Plans
mod Graphs
mod Reconciles
mod Shortcuts
mod Runs
