-- ===== src/Startup/Fresh.antt =====
-- producer_azs/postgresql_replicator.cpp: the state that the constructor leaves.
use kafka_replication.Base.{
  ℕ, suc, ◌%◌, ◌^◌, ◌≡◌, refl, sym, ap, ◌∙◌, subst, inl, inr, Bool, true, false, Option, none, some,
  List, [], ◌++◌, arith, if◌then◌else◌, Bool-cases, Bytes, codes, take, drop, ok, >>=-eq-ok,
}
use kafka_replication.Base.Word.{IsU32}
use kafka_replication.Config.{ConfigManager, open_config, get_value_by_key, parse_lsn, parse_halves}
use kafka_replication.Settings.{ConnInfo, new_conn_info, concate_to_string}
use kafka_replication.Base.Text.{find_byte, stoul}
use kafka_replication.Replicator.{Stats, PostgresqlReplicator}
use kafka_replication.Startup.{
  Postgres, Starting, new_state, connect, at_restart, start_command, start_copy, start_connection,
  start_replication_all, init_kafka, start_connected, new_replicator,
}
use kafka_replication.Startup.Position.{preparations, preparations_lem}

-- Nothing has been received, applied, cached or answered.
pub record IsFresh (r : PostgresqlReplicator) : Type 0 where
  pub received_high : r.stats.received_lsn_high ≡ 0
  pub received_low : r.stats.received_lsn_low ≡ 0
  pub applied_high : r.stats.applied_lsn_high ≡ 0
  pub applied_low : r.stats.applied_lsn_low ≡ 0
  pub restart_high : IsU32 r.stats.restart_lsn_high
  pub restart_low : IsU32 r.stats.restart_lsn_low
  pub same_flag : r.stats.flag ≡ 0
  pub relations : r.relations ≡ []
  pub replies : r.replies ≡ []

parse_lsn-IsU32 : (s : Bytes) (lsn : ℕ × ℕ) → parse_lsn s ≡ ok lsn → IsU32 lsn.0 × IsU32 lsn.1
unfolding parse_lsn parse_halves
parse_lsn-IsU32 s lsn e = halves (find_byte b'/' s) e
  where
    halves : (slash : Option ℕ) → parse_halves slash s ≡ ok lsn → IsU32 lsn.0 × IsU32 lsn.1
    halves none e = let same : lsn ≡ (0, 0) = cc in rw same (omega arith, omega arith)
    halves (some slash) e =
        let (high, _, e₁) = >>=-eq-ok (stoul (take slash s)) _ e in
        let (low, _, e₂) = >>=-eq-ok (stoul (drop (suc slash) s)) _ e₁ in
        let same : lsn ≡ (high % 2 ^ 32, low % 2 ^ 32) = cc in rw same (omega arith, omega arith)

restarted :
    (pg : Postgres) (info : ConnInfo) (lsn : ℕ × ℕ) (s : Starting)
    → IsU32 lsn.0 × IsU32 lsn.1
    → IsFresh s.replicator
    → IsFresh (at_restart pg info lsn s).replicator
restarted pg info lsn s (high, low) k = record {
  received_high = k.received_high;
  received_low = k.received_low;
  applied_high = k.applied_high;
  applied_low = k.applied_low;
  restart_high = high;
  restart_low = low;
  same_flag = k.same_flag;
  relations = k.relations;
  replies = k.replies;
}

-- What is left is that neither the connection nor the producer plays a part.
same_stream :
    (r q : PostgresqlReplicator)
    → q.stats ≡ r.stats
    → q.relations ≡ r.relations
    → q.replies ≡ r.replies
    → IsFresh r
    → IsFresh q
same_stream r q stats relations replies k = record {
  received_high = ap (λ (v : Stats). v.received_lsn_high) stats ∙ k.received_high;
  received_low = ap (λ (v : Stats). v.received_lsn_low) stats ∙ k.received_low;
  applied_high = ap (λ (v : Stats). v.applied_lsn_high) stats ∙ k.applied_high;
  applied_low = ap (λ (v : Stats). v.applied_lsn_low) stats ∙ k.applied_low;
  restart_high = subst (λ (v : Stats). IsU32 v.restart_lsn_high) (sym stats) k.restart_high;
  restart_low = subst (λ (v : Stats). IsU32 v.restart_lsn_low) (sym stats) k.restart_low;
  same_flag = ap (λ (v : Stats). v.flag) stats ∙ k.same_flag;
  relations = relations ∙ k.relations;
  replies = replies ∙ k.replies;
}

module _ (pg : Postgres) (info : ConnInfo) (config : ConfigManager) where
  start_copy-IsFresh :
      (lsn : ℕ × ℕ) (s : Starting)
      → IsU32 lsn.0 × IsU32 lsn.1
      → IsFresh s.replicator
      → IsFresh (start_copy pg info lsn s).0.replicator
  unfolding start_copy
  start_copy-IsFresh lsn s words k = elim (Bool-cases (pg.copy_both (start_command info lsn))) [
    | inl copies ↦ rw copies (
        same_stream (at_restart pg info lsn s).replicator _ refl refl refl
          (restarted pg info lsn s words k))
    | inr refused ↦ rw refused (restarted pg info lsn s words k)
  ]

  start_connection-IsFresh :
      (s t : Starting) (started : Bool)
      → IsFresh s.replicator
      → start_connection pg info config s ≡ ok (t, started)
      → IsFresh t.replicator
  unfolding start_connection
  start_connection-IsFresh s t started k e =
      let prepared : Starting = record s { executed = s.executed ++ preparations pg info } in
      let opened : Starting = record prepared {
        replicator = record (prepared.replicator) { repl_conn = true };
      } in
      let k' : IsFresh opened.replicator =
        same_stream s.replicator opened.replicator refl refl refl k in
      let e₁ = rw (preparations_lem pg info config s) at e in
      elim (Bool-cases (pg.connects (concate_to_string info ++ codes " replication=database"))) [
        | inl opens ↦
            let (lsn, read, e₂) =
              >>=-eq-ok (parse_lsn (get_value_by_key (codes "RESTART_LSN") config)) _
                (rw opens at e₁) in
            let same : (start_copy pg info lsn opened).0 ≡ t = cc in
            subst (λ (v : Starting). IsFresh v.replicator) same
              (start_copy-IsFresh lsn opened (parse_lsn-IsU32 _ lsn read) k')
        | inr refused ↦
            let same : opened ≡ t = cc (rw refused at e₁) in
            subst (λ (v : Starting). IsFresh v.replicator) same k'
      ]

  start_replication_all-IsFresh :
      (s t : Starting) (started : Bool)
      → IsFresh s.replicator
      → start_replication_all pg info config s ≡ ok (t, started)
      → IsFresh t.replicator
  unfolding start_replication_all
  start_replication_all-IsFresh s t started k e =
      let go = λ (b : Bool). if b then start_connection pg info config s else ok (s, false) in
      elim (Bool-cases s.conn) [
        | inl there ↦ start_connection-IsFresh s t started k (sym (ap go there) ∙ e)
        | inr missing ↦
            let same : s ≡ t = cc (sym (ap go missing) ∙ e) in
            subst (λ (v : Starting). IsFresh v.replicator) same k
      ]

  start_connected-IsFresh :
      (there made : Bool) (s t : Starting)
      → IsFresh s.replicator
      → start_connected pg info there made config s ≡ ok t
      → IsFresh t.replicator
  unfolding start_connected
  start_connected-IsFresh false made s t k e = cc
  start_connected-IsFresh true false s t k e = cc
  start_connected-IsFresh true true s t k e =
      let ((u, started), e₁, e₂) = >>=-eq-ok (start_replication_all pg info config s) _ e in
      let same : u ≡ t = cc in
      subst (λ (v : Starting). IsFresh v.replicator) same
        (start_replication_all-IsFresh s u started k e₁)

new_state-IsFresh : (microseconds : ℕ) → IsFresh (new_state microseconds).replicator
new_state-IsFresh microseconds = record {
  received_high = refl;
  received_low = refl;
  applied_high = refl;
  applied_low = refl;
  restart_high = omega arith;
  restart_low = omega arith;
  same_flag = refl;
  relations = refl;
  replies = refl;
}

pub new_replicator-IsFresh :
    (pg : Postgres) (getenv files : Bytes → Option Bytes) (create : List (Bytes × Bytes) → Bool)
    (microseconds : ℕ) (t : Starting)
    → new_replicator pg getenv files create microseconds ≡ ok t
    → IsFresh t.replicator
unfolding new_replicator connect init_kafka
new_replicator-IsFresh pg getenv files create microseconds t e =
    let (info, _, e₁) = >>=-eq-ok (new_conn_info getenv) _ e in
    let (config, _, e₂) = >>=-eq-ok (open_config files (codes "../replicator.conf")) _ e₁ in
    start_connected-IsFresh pg info config _ _ _ t
      (same_stream (new_state microseconds).replicator _ refl refl refl
        (new_state-IsFresh microseconds))
      e₂
