-- ===== src/Handlers.antt =====
-- backend/app/core/ticket_handlers.py: the commands that workers and operators send about a ticket.
pub mod Transaction
pub mod Workers
pub mod Lease
pub mod Start
pub mod Heartbeat
pub mod Cancel
pub mod Outcome
pub mod Serve
pub mod Sound
pub mod Kept
pub mod Guards
pub mod Effect
pub mod Promises
pub mod Alive
