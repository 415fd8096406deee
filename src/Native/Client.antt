-- ===== src/Native/Client.antt =====
-- What a reader of a native stream holds it to, whoever wrote it: a block is started once, deltas and
-- stops are for a block that is open, and every event has its fields.
use mathlib.Core.Option.{some-injective}
use claude_chakra.Prelude.{
  Option, none, some, List, [], ◌∷◌, ◌++◌, if◌then◌else◌, ◌≡◌, sym, ap, ◌∙◌, inl, inr, Option-cases,
}
use claude_chakra.Prelude.Int.{ℤ}
use claude_chakra.Native.{
  NativeEvent, content_block_start, content_block_delta, content_block_stop, opaque, has_index,
  leave_out,
}

pub record Client : Type 0 where
  pub open_blocks : List ℤ
  pub seen_blocks : List ℤ

abbrev pub new_client : Client
new_client = record { open_blocks = []; seen_blocks = [] }

unfoldable pub watch : NativeEvent → Client → Option Client
unfolding has_index leave_out
watch (content_block_start (some i) (some block)) c =
    if has_index i c.seen_blocks
    then none
    else some (record { open_blocks = i ∷ c.open_blocks; seen_blocks = i ∷ c.seen_blocks })
watch (content_block_delta (some i) (some delta)) c =
    if has_index i c.open_blocks then some c else none
watch (content_block_stop (some i)) c =
    if has_index i c.open_blocks
    then some (record c { open_blocks = leave_out i c.open_blocks })
    else none
watch (opaque t) c = some c
watch _ c = none

abbrev pub and_then : Option Client → (Client → Option Client) → Option Client
and_then none next = none
and_then (some c) next = next c

unfoldable pub watch_all : List NativeEvent → Client → Option Client
watch_all [] c = some c
watch_all (e ∷ es) c = and_then (watch e c) (watch_all es)

pub watch_all-append :
    (es fs : List NativeEvent) (c c' : Client)
    → watch_all es c ≡ some c'
    → watch_all (es ++ fs) c ≡ watch_all fs c'
unfolding watch_all
watch_all-append [] fs c c' h = ap (watch_all fs) (some-injective _ _ h)
watch_all-append (e ∷ es) fs c c' h = elim (Option-cases (watch e c)) [
  | inl bad ↦ absurd (let f = sym (ap (λ o. and_then o (watch_all es)) bad) ∙ h in cc)
  | inr (d, good) ↦
      let rest = sym (ap (λ o. and_then o (watch_all es)) good) ∙ h in
      rw good (watch_all-append es fs d c' rest)
]
