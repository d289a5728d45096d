-- ===== src/Tests.antt =====
-- The theorems at concrete logs: a ticket that is created, leased, started and completed, a review,
-- an incident, a workflow that is closed out, an employee that is frozen and restored, and
-- commands and gates on a small database.
mod Logs
mod Staff
mod Commands
mod People
mod Closeout
mod Makers
mod Waits
