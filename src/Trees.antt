-- ===== src/Trees.antt =====
-- messaging/trees/data.py: the tree of the messages of a conversation, and the queue of those that
-- wait.
pub mod Queue
pub mod Indexed
pub mod Fifo
pub mod Node
pub mod Tree
pub mod Linked
pub mod Growth
pub mod Form
pub mod RoundTrip
pub mod Store
pub mod Restore
pub mod Branch
pub mod Below
pub mod Ranked
pub mod Loops
pub mod Removal
pub mod Remaining
pub mod Pruned
pub mod Unbroken
pub mod Detached
pub mod History
pub mod Added
pub mod Drained
pub mod Acyclic
pub mod Descent
pub mod Cut
