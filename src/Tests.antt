-- ===== src/Tests.antt =====
-- Runs on concrete states: tests of the definitions, and the theorems at states where their
-- hypotheses hold. No source file of its own.
mod Sample
mod Queues
mod Scheduling
mod Events
mod Reapers
mod Memory
mod Calls
mod Loading
mod Console
