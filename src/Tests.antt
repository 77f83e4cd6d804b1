-- ===== src/Tests.antt =====
-- Runs of the theorems on concrete formats, fields and records.
mod Config
mod Emit
mod FromBytes
mod Push
mod Parse
