-- ===== src/Tests/Threads.antt =====
-- The two threads of the consumer on one message about a row, which the writer does not survive.
use kafka_replication.Base.{
  ◌+◌, ◌≤◌, ◌≡◌, refl, true, none, inr, [], ◌∷◌, arith, codes, fault, bytes_eq_self, subst, sym,
}
use kafka_replication.Consumer.{
  message, Consumed, count_received, LibRdkafkaConsumer, pre_start, init_consumer, new_consumer,
}
use kafka_replication.Queue.{push, pop, new_queue, wait_pop}
use kafka_replication.Writer.{connect, started_writer, new_writer}
use kafka_replication.Writer.Rows.{handler_incoming_data}
use kafka_replication.Writer.Inserted.{handler_insert_undefined}
use kafka_replication.Service.Threads.{
  Threads, Step, consume, hand_over, sleep_pop, take_out, Reach, here, next, writer_dies, Dies,
}
use kafka_replication.Service.Threads.Order.{IsSequential, threads-IsSequential}
use kafka_replication.Service.Threads.Progress.{
  IsRunning, Continues, work, steps, steps_bounded, threads_continue,
}
use kafka_replication.Consumer.Changes.{consume_insert}
use kafka_replication.Programs.{
  leave_scope, consumer_main, ProcessReach, at_once, behind, goes_on_first, dies_first,
}
use kafka_replication.Programs.Consumer.{NeverReturns, consumer_main-NeverReturns}
use kafka_replication.Service.Start.{
  joining_writer, aborted, new_members, check_started, start_threads, new_replication_consumer,
}
use kafka_replication.Settings.Environment.{new_conn_info-environment}
use kafka_replication.Tests.Starts.{kafka, info, environment, environment-IsEnvironment}
use kafka_replication.Tests.Doubles.{Node, node_json, node_laws, users}
use kafka_replication.Tests.Sink.{
  user, node_reader, node_reader_laws, consumer, parses, user_message, node_printer, server, writer,
  user-IsTextMember,
}

abbrev one_message : Consumed
one_message = message (codes "message") none

abbrev started : Threads Node
started = record {
  input = one_message ∷ [];
  consumer = consumer;
  pending = [];
  queue = new_queue 1000;
  in_hand = [];
  writer = writer;
}

abbrev asleep : Threads Node
asleep = record started { queue = wait_pop (new_queue 1000) }

abbrev counted : LibRdkafkaConsumer
counted = record consumer { stats = count_received (codes "message") consumer.stats }

abbrev built : Threads Node
built = record asleep { input = []; consumer = counted; pending = user_message ∷ [] }

abbrev put : Threads Node
put = record built {
  pending = [];
  queue = record (new_queue 1000) { queue_to_save = user_message ∷ [] };
}

abbrev taken : Threads Node
taken = record put { queue = new_queue 1000; in_hand = user_message ∷ [] }

sleeps : Step node_json node_reader node_printer server started asleep
unfolding pop
sleeps = sleep_pop refl refl refl refl

builds : Step node_json node_reader node_printer server asleep built
builds = consume {x = one_message} {xs = []} {c = counted} {ms = user_message ∷ []} refl refl refl (
    consume_insert node_json node_laws node_reader node_reader_laws users user 1000
      (codes "message") none consumer [] parses)

puts : Step node_json node_reader node_printer server built put
unfolding push
puts = hand_over {m = user_message} {ms = []} {q = put.queue} refl refl refl

takes : Step node_json node_reader node_printer server put taken
unfolding pop
takes = take_out {m = user_message} {q = taken.queue} refl refl refl refl

handles :
    handler_incoming_data node_json node_reader node_printer server user_message writer ≡ fault
handles =
    handler_insert_undefined node_json node_reader node_printer server user_message
      (codes "id", codes "1") [] writer refl refl user-IsTextMember

taken-Dies : Dies node_json node_reader node_printer server taken
taken-Dies = writer_dies {m = user_message} {ms = []} refl (inr handles)

run : Reach node_json node_reader node_printer server started taken
run = next (next (next (next here sleeps) builds) puts) takes

running : IsRunning node_json node_reader node_printer server started
running = record {
  consumes = refl;
  writes = refl;
  has_room = λ e. omega (arith, e);
  woken = record {
    one_push = omega arith;
    one_pop = omega arith;
    full = λ e. absurd (omega (arith, e));
    empty = λ e. refl;
  };
}

threads-IsSequential_example : IsSequential node_json node_reader node_printer server started taken
threads-IsSequential_example =
    threads-IsSequential node_json node_reader node_printer server started refl refl refl run

steps_bounded_example :
    steps node_json node_reader node_printer server run
      + work node_json node_reader node_printer server taken
    ≤ 8
steps_bounded_example = steps_bounded node_json node_reader node_printer server run

threads_continue_example : Continues node_json node_reader node_printer server taken
threads_continue_example = threads_continue node_json node_reader node_printer server running run

comes_up :
    consumer_main node_json environment (λ text. true) kafka (one_message ∷ [])
    ≡ joining_writer started
unfolding consumer_main leave_scope new_replication_consumer start_threads check_started new_members
    new_writer new_consumer connect started_writer init_consumer pre_start
comes_up = rw (
  new_conn_info-environment environment info environment-IsEnvironment (omega arith),
  bytes_eq_self info.topic,
)

process_run :
    ProcessReach node_json node_reader node_printer server (joining_writer started) aborted
process_run =
    behind
      (behind
        (behind (behind (behind at_once (goes_on_first sleeps)) (goes_on_first builds))
          (goes_on_first puts))
        (goes_on_first takes))
      (dies_first taken-Dies)

consumer_main-NeverReturns_example :
    NeverReturns node_json node_reader node_printer server started aborted
consumer_main-NeverReturns_example =
    consumer_main-NeverReturns node_json node_reader node_printer server environment (λ text. true)
      kafka (one_message ∷ []) started aborted comes_up
      (subst (λ p. ProcessReach node_json node_reader node_printer server p aborted) (sym comes_up)
        process_run)
