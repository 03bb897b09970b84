-- ===== src/Tests.antt =====
-- Runs of the program's functions on concrete inputs, and the theorems at such inputs.
mod Crc
mod Framing
mod Raport
mod Collector
mod StateFile
mod Split
mod Run
mod Logging
mod Startup
mod Tester
mod Reports
mod Program
mod Delivery
