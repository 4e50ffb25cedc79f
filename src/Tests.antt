-- ===== src/Tests.antt =====
-- The theorems at concrete inputs, and runs of the definitions.
mod Setup
mod Dump
mod Buffer
mod Shared
mod Threads
mod Sessions
mod Wirings
mod Relays
mod Flows
mod Locking
mod Relay
mod Stages
mod Writes
