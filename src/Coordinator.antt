-- ===== src/Coordinator.antt =====
-- pygrid/testkit.py, MockCoordinator: the routing api of the grid over plain dicts. This file has
-- its state and its helpers; the children have the handlers and what they keep.
pub mod State
pub mod Filed
pub mod Nodes
pub mod Headers
pub mod Gate
pub mod Listing
pub mod Submit
pub mod Pull
pub mod Result
pub mod Routes
pub mod Life
pub mod Table
pub mod Effect
pub mod Keeps
pub mod Invariant
pub mod Runs
