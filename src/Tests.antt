-- ===== src/Tests.antt =====
-- Each theorem at a concrete input, and runs of the model on inputs that can be followed in the
-- source.
mod Machines
mod Values
mod Tables
mod Servos
mod Sentences
mod Queues
mod Syncs
mod Services
mod Messages
mod Masters
mod Medians
mod Contracts
mod Forwarding
mod Stamps
mod Clients
mod Utilities
mod Signals
