-- ===== src/Api/Service/Cancel.antt =====
-- What a cancellation leaves behind.
use dispatchhub.Prelude.{
  ℕ, ◌+◌, ◌<◌, ◌≡◌, refl, ap, sym, ◌∙◌, Text, Bool, true, false, Option, none, some, arith,
}
use dispatchhub.Entity.{Task, is_terminal}
use dispatchhub.Entity.State.{cancelled}
use dispatchhub.Redis.{Redis, IsRedis, Ends}
use dispatchhub.Redis.Interface.{is_plain}
use dispatchhub.Redis.Call.{Link, up, Reply}
use dispatchhub.Broker.Codec.{Codec}
use dispatchhub.Broker.Keys.{ready_key_for, delayed_key_for}
use dispatchhub.Broker.Remove.{id_field}
use dispatchhub.Broker.Remove.Outcome.{Cleared, remove_outcome}
use dispatchhub.Broker.Settle.Outcome.{Released}
use dispatchhub.Mysql.Interface.{Mysql, IsMysql, merge}
use dispatchhub.Mysql.Tasks.{get, update, updated}
use dispatchhub.Mysql.Tasks.Locking.{bumped, update_hit}
use dispatchhub.Api.Service.{
  ServiceError, already_terminal, not_found, cancelled_task, after_update, after_get, cancel_task,
  dropped,
}

module _ (r : Redis) (c : Codec) (m : Mysql) where
  abbrev pub is_over : Option Task → Bool
  is_over none = true
  is_over (some t) = is_terminal t

  abbrev pub over_error : Option Task → ServiceError
  over_error none = not_found
  over_error (some t) = already_terminal

  after_get-over :
      (fuel : ℕ) (write push : Link) (now : ℕ) (id : Text) (s : r.Store) (db : m.Db)
      (row : Option Task)
      → is_over row ≡ true
      → after_get r c m fuel write push now id (Reply.ok row) s db
        ≡ some (some (over_error row), s, db)
  unfolding after_get
  after_get-over fuel write push now id s db none over = refl
  after_get-over fuel write push now id s db (some t) over = rw (over, after_get)

  -- An unknown task and one that is over are refused, each with its own error, whatever the other links
  -- do, and nothing changes.
  pub cancel_refused :
      (fuel : ℕ) (write push : Link) (now : ℕ) (id : Text) (s : r.Store) (db : m.Db)
      → is_over (m.find_task db id) ≡ true
      → cancel_task r c m fuel up write push now id s db
        ≡ some (some (over_error (m.find_task db id)), s, db)
  unfolding cancel_task get
  cancel_refused fuel write push now id s db over =
      after_get-over fuel write push now id s db (m.find_task db id) over

  -- With the servers in reach, fuel for the rounds of one scan and an id without the special characters
  -- of a pattern, a task that is not over is recorded as cancelled at the next version and removed from
  -- Redis: it is neither inflight nor leased, the ready and the delayed set of its queue have no member
  -- left with its id in an id field, and every other member is where it was.
  pub cancel_outcome :
      ⦃redis : IsRedis r⦄ (mysql : IsMysql m) (e : Ends r) (fuel now : ℕ) (id : Text) (row : Task)
      (s : r.Store) (db : m.Db)
      → e.rounds 0 < fuel
      → is_plain (id_field id) ≡ true
      → m.find_task db id ≡ some row
      → row.id ≡ id
      → is_terminal row ≡ false
      → (s' : r.Store) × (db' : m.Db) × (row' : Task) × (cancel_task r c m fuel up up up now id s db
          ≡ some (none, s', db'))
        × (m.find_task db' id ≡ some row')
        × (row'.state ≡ cancelled)
        × (row'.version ≡ row.version + 1)
        × Released r c s' row.queue_name id
        × Cleared r c s s' (ready_key_for row.queue_name) (id_field id)
        × Cleared r c s s' (delayed_key_for row.queue_name) (id_field id)
  unfolding cancel_task get after_get after_update
  cancel_outcome mysql e fuel now id row s db enough plain found own live =
      let t = cancelled_task r c m now row in
      let (hit, b, kept, rest) =
        update_hit m mysql db now t row (ap (λ j. m.find_task db j) own ∙ found) refl in
      let (s', gone, released, ready, delayed) =
        remove_outcome r c e fuel row.queue_name id s enough plain in
      let db' = (update m up now t db).2 in
      (
        s',
        db',
        merge row (bumped m mysql now t) now,
        ap (λ o. after_get r c m fuel up up now id (Reply.ok o) s db) found
            ∙ rw (live, after_get)
                (ap (λ x. after_update r c m fuel up (update m up now t db).1 id x s db') hit
                  ∙ ap (λ u. after_update r c m fuel up u id updated s db') b
                  ∙ ap (λ p. dropped r c m p db') gone),
        ap (λ j. m.find_task db' j) (sym own) ∙ kept,
        refl,
        ground arith,
        released,
        ready,
        delayed,
      )
