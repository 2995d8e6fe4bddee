-- ===== src/Entity/Column.antt =====
-- How Labels and Duration of internal/shared/domain/entity/task.go are written to and read from a column of
-- the database and JSON. encoding/json, time.Duration.String, time.ParseDuration and fmt.Sscanf are parameters.
use dispatchhub.Prelude.{ℕ, Text, Option, none, some, List, ◌≡◌, refl, ap, ◌∙◌, sym, arith}
use dispatchhub.Prelude.Int.{ℤ, pos}

-- What the database driver passes: nil, or a value of one of Go's types. A float64 is the number that its
-- bits spell.
pub data Column : Type 0 where
  null : Column
  int64 : ℤ → Column
  float64 : ℕ → Column
  string bytes : Text → Column
  unsupported : Column

-- A map of labels, `none` for a nil one.
abbrev pub Labels : Type 0
Labels = Option (List (Text × Text))

pub record LabelsJson : Type 0 where
  pub marshal_map : List (Text × Text) → Option Text
  pub unmarshal_map : Text → Option (List (Text × Text))

module _ (json : LabelsJson) where
  abbrev column_of : Option Text → Option Column
  column_of none = none
  column_of (some d) = some (string d)

  -- Labels.Value; `none` is an error.
  unfoldable pub labels_value : Labels → Option Column
  labels_value none = some null
  labels_value (some map) = column_of (json.marshal_map map)

  abbrev labels_of : Option (List (Text × Text)) → Option Labels
  labels_of none = none
  labels_of (some map) = some (some map)

  -- Labels.Scan
  unfoldable pub scan_labels : Column → Option Labels
  scan_labels null = some none
  scan_labels (string d) = labels_of (json.unmarshal_map d)
  scan_labels (bytes d) = labels_of (json.unmarshal_map d)
  scan_labels (int64 n) = none
  scan_labels (float64 x) = none
  scan_labels unsupported = none

  -- What the driver hands back of a column: a text as bytes.
  abbrev pub as_bytes : Column → Column
  as_bytes null = null
  as_bytes (int64 n) = int64 n
  as_bytes (float64 x) = float64 x
  as_bytes (string d) = bytes d
  as_bytes (bytes d) = bytes d
  as_bytes unsupported = unsupported

  map_back :
      (map : List (Text × Text)) (o : Option Text) (column : Column)
      → ((d : Text) → o ≡ some d → json.unmarshal_map d ≡ some map)
      → column_of o ≡ some column
      → (scan_labels column ≡ some (some map)) × (scan_labels (as_bytes column) ≡ some (some map))
  unfolding scan_labels
  map_back map none column back h = cc h
  map_back map (some d) column back h =
      let at : string d ≡ column = ground (arith, h) in
      let read = ap labels_of (back d refl) in
      (ap scan_labels (sym at) ∙ read, ap (λ x. scan_labels (as_bytes x)) (sym at) ∙ read)

  -- Labels that are written come back, whether the driver hands their text back as such or as bytes: nil
  -- labels as nil ones, and a map if its JSON comes back.
  pub scan_labels-value :
      (labels : Labels) (column : Column)
      → ((map : List (Text × Text)) (d : Text)
          → json.marshal_map map ≡ some d
          → json.unmarshal_map d ≡ some map)
      → labels_value labels ≡ some column
      → (scan_labels column ≡ some labels) × (scan_labels (as_bytes column) ≡ some labels)
  unfolding labels_value scan_labels
  scan_labels-value none column back h =
      let at : null ≡ column = ground (arith, h) in rw (sym at) (refl, refl)
  scan_labels-value (some map) column back h =
      map_back map (json.marshal_map map) column (back map) h

pub record DurationText : Type 0 where
  -- time.Duration.String, and the JSON of a text
  pub show : ℤ → Text
  pub quote : Text → Option Text
  pub unquote : Text → Option Text
  pub parse_duration : Text → Option ℤ
  -- fmt.Sscanf with %d into a number that is 0 before
  pub scan_number : Text → ℤ
  -- int64 of a float64
  pub truncate : ℕ → ℤ

module _ (text : DurationText) where
  -- Duration.MarshalJSON
  unfoldable pub marshal_duration : ℤ → Option Text
  marshal_duration d = text.quote (text.show d)

  abbrev parsed : Option Text → Option ℤ
  parsed none = none
  parsed (some v) = text.parse_duration v

  -- Duration.UnmarshalJSON
  unfoldable pub unmarshal_duration : Text → Option ℤ
  unmarshal_duration b = parsed (text.unquote b)

  -- Duration.Value
  unfoldable pub duration_value : ℤ → Column
  duration_value d = int64 d

  -- Duration.Scan
  unfoldable pub scan_duration : Column → Option ℤ
  scan_duration null = some (pos 0)
  scan_duration (int64 n) = some n
  scan_duration (float64 x) = some (text.truncate x)
  scan_duration (bytes d) = some (text.scan_number d)
  scan_duration (string d) = none
  scan_duration unsupported = none

  -- A duration comes back from JSON, and from a column that holds its number or the number's digits.
  pub duration_back :
      (d : ℤ) (b digits : Text)
      → marshal_duration d ≡ some b
      → text.unquote b ≡ some (text.show d)
      → text.parse_duration (text.show d) ≡ some d
      → text.scan_number digits ≡ d
      → (unmarshal_duration b ≡ some d)
        × (scan_duration (duration_value d) ≡ some d)
        × (scan_duration (bytes digits) ≡ some d)
  unfolding unmarshal_duration scan_duration duration_value
  duration_back d b digits shown quoted parsed_back read =
      (ap parsed quoted ∙ parsed_back, refl, ap some read)
