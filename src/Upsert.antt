-- ===== src/Upsert.antt =====
-- depend/monad/category/mpt/trie.cpp: the insertion of a list of updates into a trie that is in
-- memory. Each function of the recursion is a body that takes the functions which it calls (New,
-- Change, Walking); Recursion ties them together on fuel, and the other modules prove what they make.
pub mod Base
pub mod New
pub mod Change
pub mod Walking
pub mod Recursion
pub mod Build
pub mod Tables
pub mod Create
pub mod CreateLoop
pub mod Dispatch
pub mod Walk
pub mod WalkLoop
pub mod Laws
pub mod Grow
pub mod Returns
pub mod Inserts
pub mod Shape
pub mod Ends
pub mod Total
pub mod Contract
