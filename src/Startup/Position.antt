-- ===== src/Startup/Position.antt =====
-- producer_azs/postgresql_replicator.cpp: when the stream runs after the start, and from where.
use kafka_replication.Base.{
  ℕ, ◌≡◌, refl, ap, ◌∙◌, inl, inr, true, false, ◌||◌, List, [], ◌∷◌, ◌++◌, append_assoc,
  if◌then◌else◌, Bool-cases, Bytes, codes, ok,
}
use kafka_replication.Config.{ConfigManager, get_value_by_key, parse_lsn}
use kafka_replication.Settings.{ConnInfo, concate_to_string}
use kafka_replication.Startup.{
  Postgres, Starting, start_command, start_copy, start_replication_all, start_connection,
  create_publication_all_tables, create_replication_slot, publication_query, to_string,
}

-- The texts that PostgreSQL is to be asked.
abbrev pub asks_slot : ConnInfo → Bytes
asks_slot info =
    codes "SELECT * FROM pg_create_logical_replication_slot('"
    ++ info.slot_name
    ++ codes "', '"
    ++ info.output_plugin
    ++ codes "')"

abbrev pub asks_publication : ConnInfo → Bytes
asks_publication info =
    codes "SELECT 1 FROM  pg_publication WHERE pubname = '" ++ info.publication_name ++ codes "'"

abbrev pub creates_publication : ConnInfo → Bytes
creates_publication info =
    codes "CREATE PUBLICATION " ++ info.publication_name ++ codes " FOR ALL TABLES"

abbrev pub asks_stream : ConnInfo → ℕ → ℕ → Bytes
asks_stream info high low =
    codes "START_REPLICATION SLOT "
    ++ info.slot_name
    ++ codes " LOGICAL "
    ++ to_string high
    ++ codes "/"
    ++ to_string low
    ++ codes " (proto_version '"
    ++ info.proto_version
    ++ codes "', publication_names '\""
    ++ info.publication_name
    ++ codes "\"')"

-- The statements of a start, up to the one that asks for the copy.
abbrev pub preparations : Postgres → ConnInfo → List Bytes
preparations pg info =
    asks_slot info
    ∷ asks_publication info
    ∷ (if pg.has_rows (asks_publication info) then [] else creates_publication info ∷ [])

abbrev pub repl_conninfo : ConnInfo → Bytes
repl_conninfo info = concate_to_string info ++ codes " replication=database"

module _ (pg : Postgres) (info : ConnInfo) (config : ConfigManager) where
  pub preparations_lem :
      (s : Starting)
      → (create_publication_all_tables pg info (create_replication_slot pg info s).0).0
        ≡ record s { executed = s.executed ++ preparations pg info }
  unfolding create_publication_all_tables create_replication_slot
  preparations_lem s = elim (Bool-cases (pg.has_rows (publication_query info))) [
    | inl there ↦ rw (there, append_assoc)
    | inr missing ↦ rw (missing, append_assoc, append_assoc)
  ]

  start_copy_lem :
      (high low : ℕ) (s : Starting)
      → let cmd = start_command info (high, low) in
        let r = start_copy pg info (high, low) s in
        (r.1 ≡ pg.copy_both cmd)
        × (r.0.executed ≡ s.executed ++ cmd ∷ [])
        × (r.0.replicator.stats.restart_lsn_high ≡ high)
        × (r.0.replicator.stats.restart_lsn_low ≡ low)
        × (r.0.replicator.replicating ≡ (pg.copy_both cmd || s.replicator.replicating))
  unfolding start_copy
  start_copy_lem high low s = elim (Bool-cases (pg.copy_both (start_command info (high, low)))) [
    | inl copies ↦ rw copies (refl, refl, refl, refl, refl)
    | inr refused ↦ rw refused (refl, refl, refl, refl, refl)
  ]

  -- A start on two good connections asks, after the slot and the publication of the settings, for the
  -- stream of both from the position in the configuration, in decimal, whatever the server said about the slot and the
  -- publication; and the replicator replicates from there exactly if the server then starts the
  -- copy.
  pub start_replication_all_lem :
      (s : Starting) (high low : ℕ)
      → s.conn ≡ true
      → pg.connects (repl_conninfo info) ≡ true
      → parse_lsn (get_value_by_key (codes "RESTART_LSN") config) ≡ ok (high, low)
      → (t : Starting) × (start_replication_all pg info config s
          ≡ ok (t, pg.copy_both (asks_stream info high low)))
        × (t.executed ≡ s.executed ++ preparations pg info ++ asks_stream info high low ∷ [])
        × (t.replicator.stats.restart_lsn_high ≡ high)
        × (t.replicator.stats.restart_lsn_low ≡ low)
        × (t.replicator.replicating
            ≡ (pg.copy_both (asks_stream info high low) || s.replicator.replicating))
  unfolding start_replication_all start_connection
  start_replication_all_lem s high low conn opens position =
      let prepared : Starting = record s { executed = s.executed ++ preparations pg info } in
      let opened : Starting = record prepared {
        replicator = record (prepared.replicator) { repl_conn = true };
      } in
      let (result, sent, h, l, runs) = start_copy_lem high low opened in
      (
        (start_copy pg info (high, low) opened).0,
        ap (λ b. if b then start_connection pg info config s else ok (s, false)) conn
            ∙ rw (preparations_lem s, opens, position)
                (ap (λ b. ok ((start_copy pg info (high, low) opened).0, b)) result),
        sent ∙ rw append_assoc,
        h,
        l,
        runs,
      )
