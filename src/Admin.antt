-- ===== src/Admin.antt =====
-- The admin routes of backend/python/main.py that reach boards over their sockets: who may call
-- them, the state that they work on, and the power and notification commands.
pub mod Guard
pub mod Commands
pub mod Deregister
mod Tests
