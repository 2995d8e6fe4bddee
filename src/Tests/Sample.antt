-- ===== src/Tests/Sample.antt =====
-- Sample values for the tests: a task, and a codec that knows that task alone.
use native.Mathlib.Decide.{ℕ_discrete}
use dispatchhub.Prelude.{Text, Option, none, some, [], ◌≡◌, refl, codes, same, if◌then◌else◌, arith}
use dispatchhub.Prelude.Int.{pos}
use dispatchhub.Entity.{Task}
use dispatchhub.Entity.State.{pending}
use dispatchhub.Broker.Codec.{Codec, IsCodec}

abbrev pub task : Task
task = record {
  id = codes "t1";
  name = codes "mail";
  namespace = codes "ns";
  group = [];
  type = codes "email";
  payload = codes "{}";
  labels = [];
  priority = pos 8;
  delay = pos 0;
  schedule_at = none;
  timeout_after = pos 60000000000;
  max_retries = pos 3;
  retry_count = 1;
  retry_backoff = pos 2000000000;
  state = pending;
  result = [];
  error = [];
  worker_id = [];
  queue_name = codes "mail";
  created_at = 1;
  updated_at = 1;
  started_at = none;
  finished_at = none;
  version = 1;
}

pub Task-discrete : Discrete Task
Task-discrete = hlevel ℕ_discrete

abbrev pub wire : Text
wire = codes "1"

-- A codec that knows one task.
module _ (known : Task) where
  unfoldable pub marshal_if : {t : Task} → Dec (t ≡ known) → Option Text
  marshal_if (yes e) = some wire
  marshal_if (no n) = none

  unfoldable pub marshal : Task → Option Text
  unfolding marshal_if
  marshal t = marshal_if (Task-discrete t known)

  abbrev pub codec_of : Codec
  codec_of = record {
    marshal = marshal;
    unmarshal = λ d. if same d wire then some known else none;
    cjson_decode = λ d.
        if same d wire
        then some (record { id = known.id; priority = some known.priority })
        else none;
  }

  marshal_if-some :
      (t : Task) (o : Dec (t ≡ known)) (d : Text) → marshal_if o ≡ some d → (t ≡ known) × (d ≡ wire)
  unfolding marshal_if
  marshal_if-some t (yes e) d h = (e, ground arith)
  marshal_if-some t (no n) d h = cc

  marshal_if-known : (o : Dec (known ≡ known)) → marshal_if o ≡ some wire
  unfolding marshal_if
  marshal_if-known (yes e) = refl
  marshal_if-known (no n) = absurd (n refl)

  pub codec_of-IsCodec : IsCodec codec_of
  unfolding same marshal
  codec_of-IsCodec = record {
    unmarshal-marshal = λ t d e.
        let (p, q) = marshal_if-some t (Task-discrete t known) d e in (t.payload, rw (p, q) refl);
    cjson_decode-marshal =
        λ t d e. let (p, q) = marshal_if-some t (Task-discrete t known) d e in rw (p, q) refl;
  }

  pub marshal-known : codec_of.marshal known ≡ some wire
  unfolding marshal
  marshal-known = marshal_if-known (Task-discrete known known)

abbrev pub codec : Codec
codec = codec_of task

pub codec-IsCodec : IsCodec codec
codec-IsCodec = codec_of-IsCodec task

pub marshal-task : codec.marshal task ≡ some wire
marshal-task = marshal-known task
