-- ===== src/Tests.antt =====
-- Runs of the models at fixed inputs, and the theorems applied at such inputs.
mod Messages
mod Reads
mod Coroutines
mod Threads
mod Responses
mod Statements
mod Writes
mod Redis
mod Queues
mod Requests
mod Handlers
mod Servers
mod Sockets
mod Documents
mod Timers
mod Logs
mod Cookies
mod Connections
mod Clients
