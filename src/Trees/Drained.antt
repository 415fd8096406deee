-- ===== src/Trees/Drained.antt =====
-- What the cancellation of all that waits does to the nodes, the queue and its set.
use mathlib.Core.Option
use claude_chakra.Prelude.{ℕ, Option, none, some, List, ◌∷◌, Text}
use claude_chakra.Trees.Node.{MessageNode}
use claude_chakra.Trees.Tree.{failed_at}

with_first : Option MessageNode → List MessageNode → List MessageNode
with_first none rest = rest
with_first (some n) rest = n ∷ rest

module _ (now : ℕ) (message : Text) where
  abbrev fail : MessageNode → MessageNode
  fail = failed_at now message
