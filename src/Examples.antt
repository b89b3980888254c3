-- ===== src/Examples.antt =====
-- The theorems at concrete inputs.
mod Queue
mod Parser
mod Arguments
mod Listing
mod Wire
mod Hardware
mod Connection
mod Powerup
mod Json
mod Dialogue
mod Serving
mod Discovery
