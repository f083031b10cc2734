-- ===== src/Consumer/Callback.antt =====
-- consumer_bo/replication_consumer.h: the callbacks, and saveIntoQueue.
use kafka_replication.Base.{
  List, [], ◌∷◌, ◌++◌, if◌then◌else◌, Bytes, codes, bytes_eq, Outcome, ok, ◌>>=◌,
}
use kafka_replication.Json.{JsonLib}
use kafka_replication.Consumer.{
  JsonReader, ConsumerMessage, Callbacks, no_callbacks, set_message_callback, set_error_callback,
}

module _ (json : JsonLib) (reader : JsonReader json) where
  open json use {Value, null_value}
  open reader use {as_string, member, has_member, get_default}

  unfoldable pub text_member : Value → Bytes → Outcome Bytes
  text_member msg key = get_default msg key [] >>= as_string

  -- The members that an operation carries; the others stay null.
  unfoldable pub with_rows : Value → ConsumerMessage Value → Outcome (ConsumerMessage Value)
  with_rows msg m =
      if bytes_eq m.op (codes "INSERT")
      then (member msg (codes "data") >>= λ row. ok (record m { row = row }))
      else if bytes_eq m.op (codes "UPDATE")
      then (member msg (codes "before") >>= λ before.
          member msg (codes "after") >>= λ after. ok (record m { before = before; after = after }))
      else if bytes_eq m.op (codes "DELETE")
      then (member msg (codes "before") >>= λ before. ok (record m { before = before }))
      else ok m

  -- What saveIntoQueue builds; it reads the primary key again, whether or not it is a member.
  unfoldable pub consumer_message : Value → Outcome (ConsumerMessage Value)
  unfolding text_member
  consumer_message msg = do
    present ← has_member msg (codes "primary")
    primary_key ← text_member msg (codes "primary")
    op ← text_member msg (codes "op")
    table ← text_member msg (codes "table")
    with_rows msg (record {
      primary_key = primary_key;
      op = op;
      table = table;
      row = null_value;
      before = null_value;
      after = null_value;
    })

  -- `pending` holds the messages that are handed to the queue's push, in their order.
  unfoldable pub save_into_queue :
      Value → List (ConsumerMessage Value) → Outcome (List (ConsumerMessage Value))
  save_into_queue msg pending = do m ← consumer_message msg; ok (pending ++ m ∷ [])

  -- The message callback first prints the operation and the table, which throw if they are no texts.
  unfoldable pub on_message :
      Value → Bytes → List (ConsumerMessage Value) → Outcome (List (ConsumerMessage Value))
  on_message msg key pending = do
    op ← member msg (codes "op")
    _ ← as_string op
    table ← member msg (codes "table")
    _ ← as_string table
    _ ← has_member msg (codes "data")
    save_into_queue msg pending

  -- The callbacks that ReplicationConsumer sets; the error callback only prints.
  abbrev pub replication_callbacks : Callbacks Value (List (ConsumerMessage Value))
  replication_callbacks =
      set_error_callback (λ errstr pending. ok pending)
        (set_message_callback on_message no_callbacks)
