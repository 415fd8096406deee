-- ===== src/Lib.antt =====
-- Claude Chakra: a proxy that serves the Anthropic Messages API from pools of free providers.
--
-- A request is streamed by a provider transport. Before the upstream is called, the transport asks
-- the provider's limiter (providers/rate_limit.py, on the window of core/rate_limit.py) for a slot and
-- its key pool (providers/key_pool.py) for a key. What the upstream streams is turned into Anthropic
-- events by the builder of core/anthropic/sse.py, and core/anthropic/stream_contracts.py says which
-- streams are well-formed.
--
-- api/model_router.py turns the model name of a request into a chain of providers and models, and
-- api/fallback.py tries the candidates of the chain in turn, and sends the client the stream of the
-- first that begins to answer.
--
-- The chat bots keep a tree of messages for each conversation (messaging/trees/data.py), whose
-- queue says which is handled next. messaging/trees/queue_manager.py works through that queue, one
-- asyncio task at a time.
--
-- Files:
-- KeyPool: providers/key_pool.py. `next_live_key` and `report_rate_limit` are the methods, with
-- the clock reading as an argument and the pool passed on.
-- SlidingWindow: core/rate_limit.py. `round` is what `acquire` does under its lock; `run` is the
-- rounds of any tasks in the order in which they hold the lock; `acquire` is one task on its own.
-- Retry: providers/rate_limit.py. `World` is the clock and the limiter, `execute_with_retry` is
-- given what the calls do and the jitter that is drawn.
-- Sse: Sse.Event is the events, Sse.Blocks and Sse.Builder are core/anthropic/sse.py, Sse.Contract
-- is `assert_anthropic_stream_contract`, and Sse.Calls is the call pattern of
-- providers/openai_compat.py on the builder. The proofs stand in Sse.Simulation (the builder and
-- the checker in step) and the modules after it.
-- Fallback: api/fallback.py and core/anthropic/provider_stream_error.py. What a provider streams
-- is an argument, `Attempt`; so is `write`, which puts an event into text.
-- Trees: messaging/trees/data.py. Trees.Queue is `_SnapshotQueue`, Trees.Node is `MessageNode`,
-- Trees.Tree is `MessageTree` with its dictionaries as lists in the order of insertion (Prelude.Dict),
-- Trees.History has the operations as steps, Trees.Branch and Trees.Removal are `get_descendants` and
-- `remove_branch`, and Trees.Form and Trees.Store are `to_dict` and `from_dict`, with `isoformat` and
-- `fromisoformat` of datetime as arguments. An object of any type (`context`, `raw_event`) is a number.
-- A node object is shared in the source; here it stands in the dictionary of nodes only, where every method looks it up.
-- Processor: `TreeQueueProcessor` of messaging/trees/queue_manager.py, with `cancel_node` and
-- `cancel_tree` of the manager. What runs under the tree's lock is one function; Processor.Steps
-- has these as steps in any order, so an operation may come between the two parts of the `finally`.
-- Manager: `TreeRepository` of messaging/trees/queue_manager.py, and the operations of the manager that
-- grow it.
-- Native: core/anthropic/native_sse_block_policy.py, which gives the blocks of an upstream that streams
-- Anthropic events indexes of its own, on the payloads of the events.
-- Emitted: core/anthropic/emitted_sse_tracker.py, which ends such a stream after an error; its events
-- are those of Sse.Event.
-- Limiter: the queue of messaging/limiter.py, through which the bots send; the worker that empties it
-- waits for the window of SlidingWindow.
-- Think: core/anthropic/thinking.py. `parse` is the two parse methods, `feed` the loop around them.
-- Routing: api/model_router.py, api/gateway_model_ids.py, and the methods of config/settings.py that
-- they call. `str.lower` and the supported provider ids are arguments.
-- Prelude: tests on numbers, lists, text as lists of character codes, and integers. Tests: runs on
-- concrete inputs.
--
-- Times are natural numbers of ticks; the code adds and compares them only. Text is a list of
-- character codes. A raised exception is `none`, or a value of the model where the code handles it.
-- The `while True` of `acquire` runs on fuel: two rounds are enough for a task on its own, since the
-- wait that the first asks for ends when the oldest time has left the window. The loop of `feed` has
-- one round more than there are characters in the buffer, since each round but the last shortens it.
-- The loops over a stack of nodes run on fuel, which some number is enough of in a tree with no cycle.
-- The retry loop runs on the attempts that are left, as the code counts them.
--
-- Not modelled: HTTP, the SDKs of the upstreams, asyncio's locks and semaphores, log lines, trace
-- events, the JSON text of an event on the wire, the tiktoken estimate, the buffers of Task
-- arguments, the cancellations over several trees, the worker of the messaging limiter, the bots'
-- platforms, the CLI and the admin pages.
pub mod Prelude
pub mod KeyPool
pub mod SlidingWindow
pub mod Retry
pub mod Sse
pub mod Fallback
pub mod Trees
pub mod Processor
pub mod Manager
pub mod Think
pub mod Routing
mod Tests
pub mod Native
pub mod Emitted
pub mod Limiter
