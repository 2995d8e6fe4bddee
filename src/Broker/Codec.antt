-- ===== src/Broker/Codec.antt =====
-- JSON as the broker uses it: encoding/json on the Go side, cjson in the Lua scripts. Both are outside
-- the repository. `IsCodec` is what the broker relies on, for texts that are valid UTF-8.
use dispatchhub.Prelude.{Text, Option, some, ◌≡◌}
use dispatchhub.Prelude.Int.{ℤ}
use dispatchhub.Entity.{Task}

-- The fields that the scripts read from a decoded task.
pub record Decoded : Type 0 where
  pub id : Text
  pub priority : Option ℤ

pub record Codec : Type 0 where
  -- json.Marshal fails on a payload that is no JSON
  pub marshal : Task → Option Text
  pub unmarshal : Text → Option Task
  pub cjson_decode : Text → Option Decoded

pub record IsCodec (c : Codec) : Type 0 where
  -- A task comes back but for the spacing of its payload.
  pub unmarshal-marshal :
      (t : Task) (d : Text)
      → c.marshal t ≡ some d
      → (p : Text) × (c.unmarshal d ≡ some (record t { payload = p }))
  pub cjson_decode-marshal :
      (t : Task) (d : Text)
      → c.marshal t ≡ some d
      → c.cjson_decode d ≡ some (record { id = t.id; priority = some t.priority })
