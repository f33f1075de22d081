-- ===== src/Api.antt =====
-- The API beside its accounts: src/websocket_manager.py and src/assignments.
pub mod Websockets
pub mod Reviews
pub mod ReviewQueue
pub mod SlidingWindow
pub mod Access
mod Tests
