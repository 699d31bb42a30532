-- ===== src/Engine.antt =====
-- The engine, framework/core/src/engine.
pub mod TimerQueue
pub mod TimerWorker
