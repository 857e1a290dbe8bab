-- ===== src/Examples.antt =====
-- Runs of the code at concrete inputs, and the theorems applied to them.
mod Pipe
mod Wire
mod Map
mod Socket
mod Guards
mod Client
mod Server
mod ServerClient
mod Library
