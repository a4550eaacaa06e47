-- ===== src/Hydration.antt =====
-- `BoardHydrationService` of backend/python/services/hydration_service.py and `board_hydrate` of
-- backend/python/main.py: what a board downloads when it starts.
pub mod Schedule
pub mod Roster
pub mod Manifest
pub mod Payload
mod Tests
