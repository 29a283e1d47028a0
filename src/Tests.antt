-- ===== src/Tests.antt =====
-- Concrete runs of the theorems that have hypotheses.
mod Uris
mod Printing
mod Targets
mod Programs
mod Bytes
mod Wire
mod Serving
mod Calls
mod Relaying
mod Sessions
mod Outcomes
mod Proxying
mod Vectors
mod Turns
