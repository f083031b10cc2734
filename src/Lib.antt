-- ===== src/Lib.antt =====
-- A model of kafka_replication: a producer that follows the logical replication stream of a
-- PostgreSQL server and sends each change of a row to Kafka as JSON, and a consumer that takes the
-- changes from Kafka through a queue and writes them into another PostgreSQL database.
--
-- The parts, in the order of the data, with their files here and in the repository:
--   * Wire (read_uint8 to read_int64 of producer_azs/pgoutput_parser.cpp): the checked reads of a
--     byte vector at a size_t cursor. A read returns an Outcome (Base/Effects): a value with the
--     new cursor, an exception, or undefined behaviour.
--   * Tuple (both overloads of parseTuple, same file), Message (producer_azs/replication_message.h),
--     Message/Parse (the parse methods of producer_azs/replication_message.cpp), Message/Text (its
--     toString methods), Message/Cache (cacheRelation, getCachedRelation), Message/Listing
--     (getRelationInfo) and Parser (parseMessage): from bytes to messages, and to the texts that are
--     printed about them.
--   * Json (the rows and extractKey of producer_azs/postgresql_replicator.cpp) and Producer
--     (producer_azs/producer_librdkafka.cpp): the JSON text, and the send with its counters.
--   * Replicator (producer_azs/postgresql_replicator.cpp): the state, the handlers of the messages
--     (Replicator/Handlers), the packets and the read loop (Replicator/Packets), and the status
--     updates (Replicator itself).
--   * Config (producer_azs/config_manager.cpp): the configuration file and parseLSN; Settings
--     (ConnInfo of shared_structures.h): the settings from the environment; and Startup (the
--     constructor of producer_azs/postgresql_replicator.cpp and what it calls): the SQL commands up
--     to the start of the stream.
--   * Consumer (consumer_bo/consumer_librdkafka.cpp) and Consumer/Callback (the message callback
--     and saveIntoQueue of consumer_bo/replication_consumer.h): from a Kafka message to an element
--     of the queue.
--   * Queue (consumer_bo/safe_queue.h): the bounded queue between the two threads.
--   * Writer (consumer_bo/database_writer.cpp: the connection and the literals) and Writer/Rows (the
--     statements for rows): from an element of the queue to SQL statements.
--   * Service (consumer_bo/replication_consumer.h): loadFromQueue and startDbWriter as one thread
--     alone does them; Service/Threads has startConsumer and startDbWriter as two threads over the
--     queue, and Service/Start the constructor that starts them.
--   * Programs (producer_azs/main.cpp and consumer_bo/main.cpp): the two main functions, with the
--     destructor of consumer_bo/replication_consumer.h that the consumer's enters; and
--     Pipeline: the producer, Kafka and the consumer one behind the other, for one message
--     (Pipeline itself, Pipeline/Changes, Pipeline/Updates) and for a stream of transactions as the
--     server writes it (Pipeline/Rows and Pipeline/Events, Pipeline/Sent for the producer's side,
--     Pipeline/Written for the consumer's, and Pipeline/Stream).
--
-- How they interact: the read loop hands each packet to parse_packet, which notes the position of
-- a WAL packet, has parse_message turn the rest into a message (storing relation messages in the
-- cache), has handle_message send the change through the producer, and then acknowledges the
-- position with a status update. On the other side, start_consuming calls the message callback,
-- which builds a ConsumerMessage and pushes it; loadFromQueue pops it and hands it to
-- handler_incoming_data. The two threads of the consumer meet in the queue only: a state of
-- Service/Threads has what each of them holds and the queue between them, and a step is a round of
-- startConsumer up to its push, the push, the pop, the write of what has been popped, or a thread
-- going to sleep on a condition variable of the queue. Base holds what all of them share.
--
-- Conventions. Bytes are natural numbers in a list, without a bound where none is needed. A size_t
-- cursor wraps at 2 ^ 64 (advance in Base/Word), and so do the counters. A std::map is an
-- association list, which shows the same to find and operator[]. Log output is left out. Mutexes
-- guard single assignments or one operation here, so that each operation is one step, with its
-- notification; a condition variable counts its sleepers, who wake when they are notified (a spurious
-- wake-up would test the condition and sleep again, and is left out). The delivery reports, which
-- come at any time, are events between the sends (Producer/Counters). What is undefined in C++ is a
-- fault, the end of every run: also the delete[] of one char and the write past it in escapeString,
-- however the process may get over them. What PQexec makes of a statement is the server's: executed
-- holds the texts that are handed to it.
--
-- Bounds: to_string writes a number of at most twenty digits, enough for any 64-bit number; the
-- read loop runs over the list of what the connection yields, so that it ends with the list; the
-- writer's loop alone runs for a number of rounds; the two threads take steps as long as the list of
-- what the broker answers, what is built and what is queued allow; all other loops are structural.
--
-- Parameters: JsonCpp is the record JsonLib with its documented behaviour in JsonLaws (Json), with
-- more of it for the consumer in JsonReader, ReaderLaws (Consumer) and JsonPrinter (Writer);
-- PostgreSQL's and Kafka's answers and the clock are the records Answers (Replicator), Postgres
-- (Startup), Server (Writer) and Kafka (Consumer) and the lists of CopyData and Consumed; the
-- environment and the files are functions; the byte order, the value of an uninitialised variable,
-- and the memory for a vector are the record Host. Tests/Doubles, Tests/Sink and Tests/Starts give concrete ones.
--
-- Not modelled: the destructor of PostgresqlReplicator, which releases what it holds, and its empty
-- stopReplication; and the build and service files.
-- What librdkafka, libpq and JsonCpp do inside is behind the parameters.
pub mod Base
pub mod Wire
pub mod Tuple
pub mod Message
pub mod Parser
pub mod Json
pub mod Producer
pub mod Replicator
pub mod Config
pub mod Settings
pub mod Startup
pub mod Queue
pub mod Consumer
pub mod Writer
pub mod Service
pub mod Pipeline
pub mod Programs
mod Tests
