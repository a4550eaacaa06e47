-- ===== src/Sockets.antt =====
-- The WebSocket side of backend/python/main.py: the tickets that open a socket, the board sockets
-- that carry admin commands, and the session rooms.
pub mod Ticket
pub mod Boards
pub mod Rooms
pub mod Live
mod Tests
