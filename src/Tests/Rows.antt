-- ===== src/Tests/Rows.antt =====
-- Runs of the task repository on the database in memory.
use dispatchhub.Prelude.{◌≡◌, refl, some, same, [], ◌∷◌}
use dispatchhub.Entity.{Task}
use dispatchhub.Mysql.Interface.{merge}
use dispatchhub.Mysql.Memory.{Rows, no_rows, database, database-IsMysql}
use dispatchhub.Mysql.Tasks.{update, updated, conflict}
use dispatchhub.Mysql.Tasks.Locking.{bumped, conflict_then_update}
use dispatchhub.Redis.Call.{up}
use dispatchhub.Redis.Memory.Table.{lookup}
use dispatchhub.Tests.Sample.{task}

abbrev ahead : Task
ahead = record task { version = 2 }

abbrev stored : Rows
stored = record no_rows { tasks = ([], task.id, task) ∷ [] }

abbrev stored_ahead : Rows
stored_ahead = record no_rows { tasks = ([], task.id, ahead) ∷ [] }

find_task-stored : database.find_task stored task.id ≡ some task
unfolding lookup same
find_task-stored = refl

find_task-stored_ahead : database.find_task stored_ahead task.id ≡ some ahead
unfolding lookup same
find_task-stored_ahead = refl

conflict_then_update_example :
    let (result, t', db') = update database up 7 task stored_ahead in
    let (result', t'', db'') = update database up 8 t' db' in
    (result ≡ conflict)
    × (result' ≡ updated)
    × (database.find_task db'' task.id
        ≡ some (
            merge ahead
              (bumped database database-IsMysql 8 (bumped database database-IsMysql 7 task))
              8))
conflict_then_update_example =
    conflict_then_update database database-IsMysql stored_ahead 7 8 task ahead
      find_task-stored_ahead refl
