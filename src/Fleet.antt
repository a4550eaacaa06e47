-- ===== src/Fleet.antt =====
-- Software updates of the boards: release manifests, board versions and the audit log, in
-- backend/python/main.py.
pub mod Release
pub mod Report
pub mod Push
pub mod Overview
mod Tests
