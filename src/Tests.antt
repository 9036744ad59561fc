-- ===== src/Tests.antt =====
-- Runs of the modelled code on concrete inputs, and the theorems applied to them.
mod Fixtures
mod Queue
mod Loop
mod Rules
mod Events
mod Reports
mod Answers
mod Runs
mod Signals
