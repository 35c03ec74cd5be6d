-- ===== src/Examples.antt =====
-- Concrete runs of the modelled code, and the theorems at concrete inputs.
mod Toy
mod Tunnels
mod Records
mod Frames
mod Sessions
mod Policies
mod Fragments
mod Gates
mod Datagrams
mod Batches
mod Carriers
mod Admissions
mod Migrations
mod Handshakes
mod Servings
mod Networks
mod Configs
mod Edges
mod Accounts
mod Helpers
