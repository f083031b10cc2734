-- ===== src/Tests/Sink.antt =====
-- A reader, a printer and a server, and the message about one row of the table users.
use kafka_replication.Base.{
  ◌≡◌, refl, true, false, none, some, List, [], ◌∷◌, if◌then◌else◌, Bytes, codes, bytes_eq,
  logic_error, Outcome, ok, throw, ◌>>=◌,
}
use kafka_replication.Json.Rows.{extract_key}
use kafka_replication.Replicator.Handlers.{insert_json}
use kafka_replication.Consumer.{LibRdkafkaConsumer, JsonReader, ReaderLaws, ConsumerMessage}
use kafka_replication.Writer.{JsonPrinter, Server, DatabaseWriter}
use kafka_replication.Writer.Statements.{IsTextMember}
use kafka_replication.Tests.Doubles.{Node, null_node, text_node, member, node_json, users}

abbrev pub text_of_node : Node → Outcome Bytes
text_of_node null_node = ok []
text_of_node (text_node s) = ok s
text_of_node _ = throw logic_error

abbrev pub user : Node
user = member (codes "id") (text_node (codes "1")) null_node

-- It reads one text, the message about the row, and no other.
abbrev pub node_reader : JsonReader node_json
node_reader = record {
  parse = λ payload.
      if bytes_eq payload (codes "message")
      then some (insert_json node_json users user 1000)
      else none;
  parse_errors = λ payload. codes "no JSON";
  as_string = text_of_node;
  member = λ v key. ok (node_json.get v key);
  has_member = λ v key. ok (node_json.is_member v key);
  get_default =
      λ v key d. ok (if node_json.is_member v key then node_json.get v key else text_node d);
}

pub node_reader_laws : ReaderLaws node_json node_reader
node_reader_laws = record {
  as_string-of_string = λ s. refl;
  member_lem = λ v k h. refl;
  has_member_lem = λ v k h. refl;
  get_default_lem = λ v k d h. refl;
}

abbrev pub consumer : LibRdkafkaConsumer
consumer = record {
  created = true;
  running = true;
  topic_name = codes "changes";
  stats = record { message_received = 0; bytes_received = 0; errors = 0 };
}

pub parses : node_reader.parse (codes "message") ≡ some (insert_json node_json users user 1000)
unfolding bytes_eq
parses = refl

abbrev pub user_message : ConsumerMessage Node
user_message = record {
  primary_key = (extract_key node_json user users.columns).0;
  op = codes "INSERT";
  table = codes "users";
  row = user;
  before = null_node;
  after = null_node;
}

abbrev pub keys_of : Node → Outcome (List Bytes)
keys_of (member k v rest) = keys_of rest >>= λ keys. ok (k ∷ keys)
keys_of null_node = ok []
keys_of _ = throw logic_error

abbrev pub node_printer : JsonPrinter node_json
node_printer = record {
  is_int = λ v. false;
  is_int64 = λ v. false;
  is_double = λ v. false;
  show_int = λ v. [];
  show_int64 = λ v. [];
  show_double = λ v. [];
  as_bool = λ v. false;
  to_styled = λ v. [];
  member_names = keys_of;
}

-- Every statement succeeds, and every table is there.
abbrev pub server : Server
server = record { answer = λ before sql. true; escape = λ s. s }

abbrev pub writer : DatabaseWriter
writer = record { connected = true; running = true; executed = [] }

abbrev pub user_members : List (Bytes × Bytes)
user_members = (codes "id", codes "1") ∷ []

pub user-IsTextMember :
    IsTextMember node_json node_reader node_printer server user (codes "id", codes "1")
unfolding bytes_eq
user-IsTextMember = record { string = refl; text = refl }
