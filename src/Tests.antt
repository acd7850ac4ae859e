-- ===== src/Tests.antt =====
-- Runs of the model on concrete data, and a concrete instance of each property.
mod Samples
mod Channels
mod Handlers
mod Calls
mod Parties
mod Layouts
mod Http
mod Ethereum
mod Chains
mod Histories
mod Races
mod Strandings
mod Sessions
mod Crowds
