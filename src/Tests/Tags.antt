-- ===== src/Tests/Tags.antt =====
-- A thinking tag that is split over two chunks.
use claude_chakra.Prelude.{◌<◌, ◌≡◌, some, false, List, length, All, codes}
use claude_chakra.Think.{ContentChunk, ThinkTagParser, feed}
use claude_chakra.Think.Held.{IsHeld, feed-total}

abbrev half_read : ThinkTagParser
half_read = record { buffer = codes "<thi"; in_think_tag = false }

feed-total_example :
    (chunks : List ContentChunk) × (p : ThinkTagParser) × (feed
        (codes "nk>why</think>so <")
        half_read
      ≡ some (chunks, p))
    × All (λ c. 0 < length c.content) chunks
    × IsHeld p
feed-total_example = feed-total (codes "nk>why</think>so <") half_read
