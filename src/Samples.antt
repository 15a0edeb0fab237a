-- ===== src/Samples.antt =====
-- Concrete inputs: the parameters of the model filled in, and each theorem applied once.
mod OneToken
mod LaterToken
mod TwoTokens
mod Stubs
mod Agents
mod Requests
mod Broker
mod Credentials
mod Calls
mod Payments
mod Whole
mod Memories
mod Admissions
mod Gateways
mod Events
mod Texts
mod Delegations
mod OnBehalf
mod Entities
mod Federations
mod Vouched
mod Races
mod Grants
