-- ===== src/Mysql/Tasks/Locking.antt =====
-- The optimistic lock of `TaskRepository.Update`.
use dispatchhub.Prelude.{
  ℕ, ◌+◌, ◌≡◌, ◌≢◌, refl, ◌∙◌, Text, some, arith, same, same_refl, same_iff, ==_iff, false,
}
use dispatchhub.Entity.{Task}
use dispatchhub.Mysql.Interface.{Mysql, IsMysql, merge}
use dispatchhub.Redis.Call.{up}
use dispatchhub.Mysql.Tasks.{updated, conflict, update}

module _ (m : Mysql) (mysql : IsMysql m) where
  open m use {Db, find_task}

  -- The struct as Update leaves it, on success and on conflict alike.
  abbrev pub bumped : ℕ → Task → Task
  bumped now t = record t { version = t.version + 1; updated_at = now }

  -- With the version of the row, Update writes the non-zero fields and the next version into it.
  pub update_hit :
      (db : Db) (now : ℕ) (t row : Task)
      → find_task db t.id ≡ some row
      → row.version ≡ t.version
      → let (result, t', db') = update m up now t db in
        (result ≡ updated)
        × (t' ≡ bumped now t)
        × (find_task db' t.id ≡ some (merge row (bumped now t) now))
        × ((j : Text) → same t.id j ≡ false → find_task db' j ≡ find_task db j)
  unfolding update
  update_hit db now t row e v =
      let rows = mysql.rows-update db t.id t.version (bumped now t) now in
      let found = mysql.find-update db t.id t.version (bumped now t) now in
      (
        ground (arith, rows),
        refl,
        ground (arith, found t.id, same_refl t.id),
        λ j ne. ground (arith, found j, ne),
      )

  -- With any other version Update reports a conflict and changes no row, but the version in memory
  -- has risen all the same.
  pub update_miss :
      (db : Db) (now : ℕ) (t row : Task)
      → find_task db t.id ≡ some row
      → row.version ≢ t.version
      → let (result, t', db') = update m up now t db in
        (result ≡ conflict) × (t' ≡ bumped now t) × ((j : Text) → find_task db' j ≡ find_task db j)
  unfolding update
  update_miss db now t row e v =
      let rows = mysql.rows-update db t.id t.version (bumped now t) now in
      let found = mysql.find-update db t.id t.version (bumped now t) now in
      (
        ground (arith, rows, ==_iff row.version t.version),
        refl,
        λ j. ground (arith, found j, same_iff t.id j, ==_iff row.version t.version),
      )

  -- A conflict with a row that is one version ahead is gone at the next Update of the same struct:
  -- that one succeeds and overwrites the row, though nobody has read it again.
  pub conflict_then_update :
      (db : Db) (now now' : ℕ) (t row : Task)
      → find_task db t.id ≡ some row
      → row.version ≡ t.version + 1
      → let (result, t', db') = update m up now t db in
        let (result', t'', db'') = update m up now' t' db' in
        (result ≡ conflict)
        × (result' ≡ updated)
        × (find_task db'' t.id ≡ some (merge row (bumped now' (bumped now t)) now'))
  unfolding update
  conflict_then_update db now now' t row e v =
      let ne : row.version ≢ t.version = omega arith in
      let (c, b, keep) = update_miss db now t row e ne in
      let t' = bumped now t in
      let db' = (m.update_task db t.id t.version t' now).1 in
      let (hit, b', found, rest) = update_hit db' now' t' row (keep t.id ∙ e) v in (c, hit, found)
