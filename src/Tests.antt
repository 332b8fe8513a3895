-- ===== src/Tests.antt =====
-- Concrete runs of the definitions, and an example for each theorem with hypotheses.
mod LoopTasks
mod Places
mod Traces
mod Graph
mod Fifos
mod Barrier
mod Tables
mod Tracing
mod Options
mod Scheduling
