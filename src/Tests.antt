-- ===== src/Tests.antt =====
-- Runs of the program on the stand-ins, and each theorem with hypotheses at an input that meets them.
mod Runs
mod Lifecycle
mod Names
mod Drift
mod Contracts
mod Recovery
mod Handlers
mod Recorder
mod Docker
mod Sweep
mod Access
mod Keycloak
mod Backups
mod Contents
mod Queue
mod Cost
