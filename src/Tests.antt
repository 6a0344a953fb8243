-- ===== src/Tests.antt =====
-- The theorems at concrete inputs.
mod Toy
mod Laws
mod Codecs
mod Marks
mod Nonces
mod Limits
mod Chains
mod Nodes
mod Parts
mod Requests
mod Collections
mod Migrations
mod Keys
mod Restarts
mod Audits
mod Sessions
