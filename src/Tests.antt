-- ===== src/Tests.antt =====
-- The properties at concrete inputs.
mod Boards
mod Tables
mod Runs
mod Pipeline
mod Answers
