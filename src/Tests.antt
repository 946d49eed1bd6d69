-- ===== src/Tests.antt =====
-- The theorems at concrete inputs.
mod Data
mod Codec
mod Commands
mod Sessions
mod Inputs
mod Parsing
mod Automation
mod Links
mod Site
mod Program
