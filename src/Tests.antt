-- ===== src/Tests.antt =====
-- Sample values, and runs of the code at them.
mod Samples
mod Configuration
mod Events
mod Delivery
mod Connections
mod Workers
mod Logging
mod Service
mod Passage
mod Surroundings
mod Flowing
mod Started
mod Registering
mod Probing
mod Leaving
