-- ===== src/Ns3.antt =====
-- The simulation scripts of ns3/ and scratch/: the calls that their mains make on ns-3, in order.
pub mod Script
pub mod Wires
pub mod Check
pub mod Paced
pub mod Dumbbell
pub mod Variants
pub mod Bulk
pub mod Star
pub mod Echo
pub mod Wiring
pub mod Spokes
