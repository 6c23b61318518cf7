-- ===== src/Examples.antt =====
-- Concrete inputs, and the theorems applied to them.
mod Signing
mod Programs
mod Messages
mod Delivering
mod Verifying
mod Toy
mod Submitting
mod Broadcasting
mod Placeholders
mod Signers
mod Environment
mod Recovering
mod Checked
mod Resubmitted
mod Setup
mod CommandLine
mod Refused
