-- ===== src/Api/Protocols/Cancellation.antt =====
-- What a caller of either server sees of a cancellation.
use dispatchhub.Prelude.{ℕ, ◌<◌, ◌≡◌, ap, ◌∙◌, Text, true, false, Option, none, some}
use dispatchhub.Prelude.Int.{ℤ}
use dispatchhub.Entity.{Task, is_terminal}
use dispatchhub.Redis.{Redis, IsRedis, Ends}
use dispatchhub.Redis.Interface.{is_plain}
use dispatchhub.Redis.Call.{Link, up, Reply}
use dispatchhub.Broker.Codec.{Codec}
use dispatchhub.Broker.Remove.{id_field}
use dispatchhub.Mysql.Interface.{Mysql, IsMysql}
use dispatchhub.Mysql.Tasks.{get}
use dispatchhub.Api.Service.Cancel.{is_over, cancel_refused, cancel_outcome}
use dispatchhub.Api.Grpc.{ProtoTask, state_cancelled, entity_to_proto_task, entity_to_proto_state}
use dispatchhub.Api.Grpc.Tasks.{ok, err, internal, cancelled_answer, after_cancel, rpc_cancel_task}
use dispatchhub.Api.Http.{refuse, status_internal_server_error}
use dispatchhub.Api.Http.Tasks.{after_cancelled, handle_cancel_task}

module _ (r : Redis) (c : Codec) (m : Mysql) where
  -- To cancel a task that is not known, or one that is over, is an internal error of both servers,
  -- and changes nothing.
  pub cancel_internal :
      (parse_duration atoi : Text → Option ℤ) (fuel : ℕ) (write push again : Link) (now : ℕ)
      (id : Text) (s : r.Store) (db : m.Db)
      → is_over r c m (m.find_task db id) ≡ true
      → (rpc_cancel_task r c m fuel up write push again now id s db ≡ some (err internal, s, db))
        × (handle_cancel_task r c m parse_duration atoi fuel up write push now id s db
            ≡ some (refuse status_internal_server_error, s, db))
  unfolding rpc_cancel_task handle_cancel_task after_cancel after_cancelled
  cancel_internal parse_duration atoi fuel write push again now id s db over =
      let refused = cancel_refused r c m fuel write push now id s db over in
      (
        ap (after_cancel r c m again id) refused,
        ap (after_cancelled r c m parse_duration atoi) refused,
      )

  after_cancel-found :
      (id : Text) (s : r.Store) (db : m.Db) (row : Task)
      → m.find_task db id ≡ some row
      → after_cancel r c m up id (some (none, s, db)) ≡ some (ok (entity_to_proto_task row), s, db)
  unfolding after_cancel get
  after_cancel-found id s db row found = ap (λ o. some (cancelled_answer (Reply.ok o), s, db)) found

  -- With the servers in reach the cancellation of a task that is not over is answered with that task
  -- in the state cancelled.
  pub cancel_shown :
      ⦃redis : IsRedis r⦄ (mysql : IsMysql m) (e : Ends r) (fuel now : ℕ) (id : Text) (row : Task)
      (s : r.Store) (db : m.Db)
      → e.rounds 0 < fuel
      → is_plain (id_field id) ≡ true
      → m.find_task db id ≡ some row
      → row.id ≡ id
      → is_terminal row ≡ false
      → (shown : ProtoTask) × (s' : r.Store) × (db' : m.Db) × (rpc_cancel_task r c m fuel up up up
            up now id s db
          ≡ some (ok shown, s', db'))
        × (shown.state ≡ state_cancelled)
  unfolding rpc_cancel_task entity_to_proto_task
  cancel_shown mysql e fuel now id row s db enough plain found own live =
      let (s', db', row', run, kept, over, version, released, ready, delayed) =
        cancel_outcome r c m mysql e fuel now id row s db enough plain found own live in
      (
        entity_to_proto_task row',
        s',
        db',
        ap (after_cancel r c m up id) run ∙ after_cancel-found id s' db' row' kept,
        ap entity_to_proto_state over,
      )
