-- ===== src/Staffing.antt =====
-- backend/app/core/staffing_containment.py: what the system writes to the log when an employee is
-- frozen or replaced while it holds tickets, and when it is restored.
pub mod Dedupe
pub mod Log
pub mod Contain
pub mod Restore
pub mod Excluded
pub mod Written
