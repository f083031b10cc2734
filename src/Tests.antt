-- ===== src/Tests.antt =====
-- The theorems at concrete inputs, and the concrete collaborators they need.
mod Doubles
mod Parsing
mod Overruns
mod Members
mod Stream
mod Files
mod Sink
mod Queues
mod Consumers
mod Starts
mod Threads
mod Ends
mod Runs
mod Texts
mod Changes
mod Flow
mod Transactions
