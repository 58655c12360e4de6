-- ===== src/Tests.antt =====
-- Runs on small inputs of the packages under internal that are modelled.
mod Graphs
mod Runs
mod Outputs
mod Advisories
mod Filters
mod Recovery
mod Journals
mod Installs
