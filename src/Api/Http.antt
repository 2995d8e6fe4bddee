-- ===== src/Api/Http.antt =====
-- internal/apiserver/interfaces/http/server.go: the requests, the answers and what the handlers share.
-- A body that encoding/json does not decode is `none`; `parse_duration` stands for
-- time.ParseDuration and `atoi` for strconv.Atoi.
pub mod Tasks
pub mod Crons
use dispatchhub.Prelude.{ℕ, Text, Bool, Option, none, some, is_empty, get_or, if◌then◌else◌}
use dispatchhub.Prelude.Int.{ℤ, pos}

-- What a handler writes: a status with a value, or one with an error message.
pub data Answer {ℓ} (A : Type ℓ) : Type ℓ where
  answer : ℕ → A → Answer A
  refuse : ℕ → Answer A

-- The constants of net/http.
abbrev pub status_ok : ℕ
status_ok = 200

abbrev pub status_created : ℕ
status_created = 201

abbrev pub status_bad_request : ℕ
status_bad_request = 400

abbrev pub status_not_found : ℕ
status_not_found = 404

abbrev pub status_internal_server_error : ℕ
status_internal_server_error = 500

abbrev pub status_service_unavailable : ℕ
status_service_unavailable = 503

pub record SubmitTaskBody : Type 0 where
  pub name : Text
  pub namespace : Text
  pub group : Text
  pub type : Text
  pub payload : Text
  pub labels : Text
  pub priority : ℤ
  pub queue_name : Text
  pub max_retries : ℤ
  pub timeout_after : Text
  pub delay : Text

pub record ListTasksQuery : Type 0 where
  pub namespace : Text
  pub group : Text
  pub type : Text
  pub queue : Text
  pub limit : Text
  pub offset : Text

pub record CreateCronJobBody : Type 0 where
  pub name : Text
  pub namespace : Text
  pub type : Text
  pub payload : Text
  pub labels : Text
  pub cron_expr : Text
  pub queue_name : Text
  pub priority : ℤ
  pub max_retries : ℤ
  pub timeout_after : Text
  pub retry_backoff : Text

-- A duration that is left out, and one that does not parse, leaves the field at zero.
abbrev pub duration_field : (Text → Option ℤ) → Text → ℤ
duration_field parse_duration x = if is_empty x then pos 0 else get_or (pos 0) (parse_duration x)

-- The same of a number of the query.
abbrev pub number_field : (Text → Option ℤ) → ℤ → Text → ℤ
number_field atoi default x = if is_empty x then default else get_or default (atoi x)
