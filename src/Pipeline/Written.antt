-- ===== src/Pipeline/Written.antt =====
-- The messages about a stream's changes, through both threads of the consumer
-- (consumer_bo/replication_consumer.h), to the statements that they run.
use kafka_replication.Base.{
  ◌≡◌, refl, sym, ap, ◌∙◌, inl, some, List, [], ◌∷◌, ◌++◌, map, append-nil, append_assoc, Bytes,
  All, Outcome, ok, ◌>>=◌, codes, Bool, ◌≤◌, subst, length, fault, ℕ, arith,
}
use kafka_replication.Json.{JsonLib, JsonLaws}
use kafka_replication.Json.Members.{cells, row_object-cells}
use kafka_replication.Tuple.Encoding.{shown}
use kafka_replication.Consumer.{
  JsonReader, ReaderLaws, ConsumerMessage, Consumed, LibRdkafkaConsumer, count_received,
  start_consuming,
}
use kafka_replication.Consumer.Callback.{replication_callbacks}
use kafka_replication.Consumer.Messages.{consume_all}
use kafka_replication.Consumer.Changes.{consume_insert, consume_delete}
use kafka_replication.Writer.{JsonPrinter, Server, DatabaseWriter, exec, quoted_text}
use kafka_replication.Writer.Inserted.{handler_insert_undefined}
use kafka_replication.Service.{write_all}
use kafka_replication.Service.Threads.{Threads, IsDone, Reach}
use kafka_replication.Service.Threads.Order.{threads-IsSequential}
use kafka_replication.Pipeline.{arrives, All-Permᴰ, IsCarried, texts_lem}
use kafka_replication.Pipeline.Rows.{
  object_of, json_of, sent_of, element_of, Change, inserted, deleted, IsFit, Row,
}
use kafka_replication.Writer.Rows.{where_key, handler_incoming_data}
use kafka_replication.Writer.Statements.{names}
use kafka_replication.Pipeline.Changes.{handler_delete, key_text_lem}

-- A list that is mapped to two parts has two parts.
map_append_lem {ℓ κ} :
    {A : Type ℓ} {B : Type κ} (f : A → B) (cs : List A) (xs ys : List B)
    → xs ++ ys ≡ map f cs
    → (front : List A) × (bs : List A) × (front ++ bs ≡ cs) × (xs ≡ map f front) × (ys ≡ map f bs)
map_append_lem f cs [] ys e = ([], cs, refl, refl, e)
map_append_lem f [] (x ∷ xs) ys e = cc
map_append_lem f (c ∷ cs) (x ∷ xs) ys e =
    let first : x ≡ f c = cc in
    let rest : xs ++ ys ≡ map f cs = cc in
    let (front, bs, whole, start, back) = map_append_lem f cs xs ys rest in
    (c ∷ front, bs, ap (λ l. c ∷ l) whole, cc, back)

map-nil {ℓ κ} : {A : Type ℓ} {B : Type κ} (f : A → B) (cs : List A) → [] ≡ map f cs → cs ≡ []
map-nil f [] e = refl
map-nil f (c ∷ cs) e = cc

All-front {ℓ κ} :
    {A : Type ℓ} (P : A → Type κ) (front back cs : List A)
    → front ++ back ≡ cs
    → All P cs
    → All P front
All-front P [] back cs e h = tt
All-front P (a ∷ front) back cs e h =
    let both : All P (a ∷ (front ++ back)) = subst (All P) (sym e) h in
    (both.0, All-front P front back (front ++ back) refl both.1)

-- The change is the deletion of a row.
abbrev pub IsDeletion : Change → Type 0
IsDeletion (inserted row) = ⊥
IsDeletion (deleted row mark b bs text) = Unit {0}

module _ (json : JsonLib) (reader : JsonReader json) (printer : JsonPrinter json)
    (server : Server) where
  open json use {Value, write}

  -- JsonCpp carries the change's message; a row that is inserted has a member.
  abbrev pub IsRead : Change → Type 0
  IsRead (inserted row) =
      IsCarried json reader printer (json_of json (inserted row)) (object_of json row)
        (cells row.relation.columns (map shown row.fields)) row.listed
      × (1 ≤ length row.listed)
  IsRead (deleted row mark b bs text) =
      (reader.parse (write (json_of json (deleted row mark b bs text)))
        ≡ some (json_of json (deleted row mark b bs text)))
      × (printer.member_names (object_of json row) ≡ ok (names row.listed))

  -- The DELETE of the rows with the key.
  abbrev pub delete_statements : Change → List Bytes
  delete_statements (inserted row) = []
  delete_statements (deleted row mark b bs text) =
      (codes "DELETE FROM "
        ++ row.relation.relation_name
        ++ where_key json reader printer server (b ∷ bs) (quoted_text text))
      ∷ []

  -- The statements for the changes, one after the other, behind those that were executed before.
  pub statements : List Change → List Bytes → List Bytes
  statements [] executed = executed
  statements (c ∷ cs) executed = statements cs (executed ++ delete_statements c)

module _ (json : JsonLib) (laws : JsonLaws json) (reader : JsonReader json)
    (reads : ReaderLaws json reader) (printer : JsonPrinter json) (server : Server) where
  open json use {Value, get, of_string, null_value, write}

  abbrev inputs : Bytes → List Change → List Consumed
  inputs topic = map (λ c. arrives (sent_of json topic c))

  pub consume_change :
      (topic : Bytes) (c : Change) (d : LibRdkafkaConsumer) (ms : List (ConsumerMessage Value))
      → IsRead json reader printer server c
      → start_consuming json reader
          (replication_callbacks json reader)
          (arrives (sent_of json topic c))
          d
          ms
        ≡ ok (
          record d { stats = count_received (write (json_of json c)) d.stats },
          ms ++ element_of json c ∷ [],
        )
  consume_change topic (inserted row) d ms (carried, some_there) =
      consume_insert json laws reader reads row.relation (object_of json row)
        row.answers.milliseconds (write (json_of json (inserted row))) _ d ms carried.read_back
  consume_change topic (deleted row mark b bs text) d ms (read_back, listed) =
      consume_delete json laws reader reads row.relation (object_of json row)
        row.answers.milliseconds (write (json_of json (deleted row mark b bs text))) _ d ms
        read_back

  consume_all-changes :
      (topic : Bytes) (cs : List Change) (d : LibRdkafkaConsumer)
      (ms : List (ConsumerMessage Value))
      → All (IsRead json reader printer server) cs
      → (d' : LibRdkafkaConsumer) × (consume_all json reader
            (replication_callbacks json reader)
            (inputs topic cs)
            d
            ms
          ≡ ok (d', ms ++ map (element_of json) cs))
  unfolding consume_all
  consume_all-changes topic [] d ms k = (d, rw append-nil)
  consume_all-changes topic (c ∷ cs) d ms (k, ks) =
      let counted = record d { stats = count_received (write (json_of json c)) d.stats } in
      let (d', more) = consume_all-changes topic cs counted (ms ++ element_of json c ∷ []) ks in
      (
        d',
        ap
              (λ r. r >>= λ (c', ms').
                consume_all json reader (replication_callbacks json reader) (inputs topic cs) c'
                  ms')
              (consume_change topic c d ms k)
            ∙ more
            ∙ rw append_assoc,
      )

  insert_change :
      (row : Row) (w : DatabaseWriter) (ms : List (Bytes × Bytes))
      → row.listed ≡ ms
      → IsFit (inserted row)
      → IsRead json reader printer server (inserted row)
      → handler_incoming_data json reader printer server (element_of json (inserted row)) w ≡ fault
  insert_change row w [] same fit (carried, some_there) =
      absurd (omega (arith, ap length same, some_there))
  insert_change row w (m ∷ ms) same (distinct, _) (carried, some_there) =
      let object = object_of json row in
      let members =
        All-Permᴰ (λ n. get object n.0 ≡ of_string n.1) carried.listed_all
          (row_object-cells json laws row.relation.columns (map shown row.fields) null_value
            distinct (inl laws.type-null_value)) in
      let (text, _) =
        texts_lem json reader printer server reads object (m ∷ ms) carried.strings
          (subst (λ l. All (λ n. get object n.0 ≡ of_string n.1) l) same members) in
      handler_insert_undefined json reader printer server (element_of json (inserted row)) m
        (names ms) w refl (carried.listed_names ∙ ap (λ l. ok (names l)) same) text

  pub delete_change :
      (row : Row) (mark b : ℕ) (bs text : Bytes) (w : DatabaseWriter)
      → IsFit (deleted row mark b bs text)
      → IsRead json reader printer server (deleted row mark b bs text)
      → (result : Bool) × (handler_incoming_data json reader printer server
            (element_of json (deleted row mark b bs text))
            w
          ≡ ok (
            record w {
              executed =
                  w.executed
                  ++ delete_statements json reader printer server (deleted row mark b bs text);
            },
            result,
          ))
  unfolding exec
  delete_change row mark b bs text w (distinct, keyed) (read_back, listed) =
      let (member, text_there, key) =
        key_text_lem json laws reader reads row.relation row.fields b bs text keyed in
      (
        _,
        handler_delete json reader printer server (element_of json (deleted row mark b bs text)) b
            bs text (names row.listed) (of_string text) w refl key listed member text_there,
      )

  -- Writing that returns has had deletions only, and has executed their statements.
  write_all-changes :
      (cs : List Change) (w v : DatabaseWriter)
      → All IsFit cs
      → All (IsRead json reader printer server) cs
      → write_all json reader printer server (map (element_of json) cs) w ≡ ok v
      → All IsDeletion cs
        × (v ≡ record w { executed = statements json reader printer server cs w.executed })
  unfolding write_all statements
  write_all-changes [] w v h k e = (tt, cc)
  write_all-changes (inserted row ∷ cs) w v (h, hs) (k, ks) e =
      let go = λ (r : Outcome (DatabaseWriter × Bool)).
        r >>= λ (w', result). write_all json reader printer server (map (element_of json) cs) w' in
      cc (sym (ap go (insert_change row w row.listed refl h k)) ∙ e)
  write_all-changes (deleted row mark b bs text ∷ cs) w v (h, hs) (k, ks) e =
      let go = λ (r : Outcome (DatabaseWriter × Bool)).
        r >>= λ (w', result). write_all json reader printer server (map (element_of json) cs) w' in
      let (result, written) = delete_change row mark b bs text w h k in
      let (deletions, same) = write_all-changes cs _ v hs ks (sym (ap go written) ∙ e) in
      ((tt, deletions), same)

  -- What the writer has executed, in every state that the threads come to.
  pub record IsWrittenOut (cs : List Change) (u v : Threads Value) : Type 0 where
    pub done : List Change
    pub left : List Change
    pub order : done ++ left ≡ cs
    pub deletions : All IsDeletion done
    pub executed : v.writer ≡ record u.writer {
      executed = statements json reader printer server done u.writer.executed;
    }
    pub complete : IsDone v → left ≡ []

  pub threads-changes :
      (topic : Bytes) (cs : List Change) (u v : Threads Value)
      → All IsFit cs
      → All (IsRead json reader printer server) cs
      → u.input ≡ inputs topic cs
      → u.queue.queue_to_save ≡ []
      → u.pending ≡ []
      → u.in_hand ≡ []
      → Reach json reader printer server u v
      → IsWrittenOut cs u v
  threads-changes topic cs u v h k arrived empty idle none_there run =
      let seq = threads-IsSequential json reader printer server u empty idle none_there run in
      let (begun, coming, whole, answered, unread) =
        map_append_lem (λ c. arrives (sent_of json topic c)) cs seq.answers v.input
          (seq.read ∙ arrived) in
      let k' = All-front (IsRead json reader printer server) begun coming cs whole k in
      let h' = All-front IsFit begun coming cs whole h in
      let (d, reads_all) = consume_all-changes topic begun u.consumer [] k' in
      let flying = v.in_hand ++ (v.queue.queue_to_save ++ v.pending) in
      let both : ◌≡◌ {A = Outcome (LibRdkafkaConsumer × List (ConsumerMessage Value))}
          (ok (v.consumer, seq.written ++ flying)) (ok (d, map (element_of json) begun)) =
        sym seq.consumed
        ∙ ap (λ xs. consume_all json reader (replication_callbacks json reader) xs u.consumer [])
            answered
        ∙ reads_all in
      let built : seq.written ++ flying ≡ map (element_of json) begun = cc in
      let (done, held, parts, written, held_there) =
        map_append_lem (element_of json) begun seq.written flying built in
      let k'' = All-front (IsRead json reader printer server) done held begun parts k' in
      let h'' = All-front IsFit done held begun parts h' in
      let (deletions, executed) =
        write_all-changes done u.writer v.writer h'' k''
          (sym (ap (λ ms. write_all json reader printer server ms u.writer) written) ∙ seq.saved) in
      record {
        done = done;
        left = held ++ coming;
        order = sym (append_assoc done held coming) ∙ rw parts whole;
        deletions = deletions;
        executed = executed;
        complete = λ finished.
            let none_coming : coming ≡ [] =
              map-nil (λ c. arrives (sent_of json topic c)) coming (sym finished.silent ∙ unread) in
            let nothing : flying ≡ [] = rw (finished.none_in_hand, finished.empty, finished.idle) in
            let none_held : held ≡ [] = map-nil (element_of json) held (sym nothing ∙ held_there) in
            rw (none_held, none_coming);
      }
