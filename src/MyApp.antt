-- ===== src/MyApp.antt =====
-- The paced sender `MyApp` of ns3/fifth.cc (the same class stands in scratch/fifth.cc,
-- ns3/dumbbell.cc and ns3/tcpvariants.cc, where its methods are setup, sendPkt and scheduleTx).
--
-- `Simulator` is the part of the ns-3 scheduler that the class calls, `App` the class, `System` its
-- life under the scheduler, `Invariant` and `Delivery` the theorems.
pub mod Simulator
pub mod App
pub mod System
pub mod Invariant
pub mod Trace
pub mod Delivery
pub mod Timing
