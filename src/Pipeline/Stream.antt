-- ===== src/Pipeline/Stream.antt =====
-- A stream of transactions that insert and delete rows, from the packets to the statements, through
-- both threads of the consumer.
use kafka_replication.Service.Threads.{Threads}
