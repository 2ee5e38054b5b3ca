-- ===== src/Examples.antt =====
-- Runs of the model, and its theorems at concrete inputs.
mod Sockets
mod Keepalives
mod Hosts
mod Pipes
mod Services
mod Checks
mod Joins
mod Endpoints
mod Runs
mod Intakes
mod Statuses
mod Relays
mod Intervals
mod Pulls
mod Starts
