-- ===== src/Host.antt =====
-- extensions/_shared: the timers that the agents and the screen rest on.
pub mod LongTimer
pub mod Render
