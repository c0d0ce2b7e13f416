-- ===== src/Execution/MySql/Entries.antt =====
-- Load and Store of execution/mysql_cache.go.
use flowkit.Base.{ℕ, String, not, ◌&&◌, Option, none, some, if◌then◌else◌, str_eq, ltb}
use flowkit.Errors.{
  Error, message, wrapped, sentinel, corrupt_cache, Result, ok, err, ◌>>=◌, labelled,
}
use flowkit.Execution.Cache.{Key, Envelope, Codec, digest, schema, key_eq}
use flowkit.Execution.MySql.{Server, Row, MySqlCache, quoted}

module _ {V W : Type 0} (c : Codec V) (s : Server W) (m : MySqlCache) where
  abbrev corrupt : {A : Type 0} → Result A
  corrupt = err (wrapped "%w" (sentinel corrupt_cache))

  abbrev of_value : Result V → Result (Option V)
  of_value (err e) = corrupt
  of_value (ok v) = ok (some v)

  abbrev of_envelope : Key → Result Envelope → Result (Option V)
  of_envelope key (err e) = corrupt
  of_envelope key (ok e) =
      if not (
        str_eq e.schema_version schema
        && (key_eq e.key key && str_eq e.value_digest (c.hash e.value)))
      then corrupt
      else of_value (c.value_of e.value)

  -- What the SELECT has found.
  abbrev of_row : Key → Option String → Result (Option V)
  of_row key none = ok none
  of_row key (some raw) =
      if ltb m.max_entry_bytes (c.size raw) then corrupt else of_envelope key (c.envelope_of raw)

  -- Load, whose first argument is ctx.Err()
  unfoldable pub mysql_load : Option Error → Key → W → Result (Option V)
  unfolding digest quoted
  mysql_load (some e) key w = err e
  mysql_load none key w = digest c key >>= λ d.
      labelled "read mysql cache entry: %w" (s.select_value (quoted m.table) d w) >>= of_row key

  -- A row, of the envelope of an encoded value.
  abbrev row : ℕ → Key → String → String → String → Row
  row now key d value bytes = record {
    key_digest = d;
    step = key.step;
    version = key.version;
    input_digest = key.input_digest;
    value_digest = c.hash value;
    value_json = bytes;
    created_at = now;
  }

  abbrev envelope : Key → String → Envelope
  envelope key value = record {
    schema_version = schema;
    key = key;
    value_digest = c.hash value;
    value = value;
  }

  abbrev fitting : ℕ → Key → String → String → String → Result Row
  fitting now key d value bytes =
      if ltb m.max_entry_bytes (c.size bytes)
      then err (message "cache entry is %d bytes, maximum is %d")
      else ok (row now key d value bytes)

  -- The row of a value, up to the INSERT.
  abbrev row_of : ℕ → Key → V → Result Row
  row_of now key v = digest c key >>= λ d.
      labelled "marshal cache value: %w" (c.value_json v) >>= λ value.
      labelled "marshal cache envelope: %w" (c.envelope_json (envelope key value)) >>= λ bytes.
      fitting now key d value bytes

  abbrev published : Option Error × W → Option Error × W
  published (none, w) = (none, w)
  published (some e, w) = (some (wrapped "publish mysql cache entry: %w" e), w)

  abbrev upserted : Result Row → W → Option Error × W
  upserted (err e) w = (some e, w)
  upserted (ok r) w = published (s.upsert (quoted m.table) r w)

  -- Store, at a reading of the clock in milliseconds
  unfoldable pub mysql_store : Option Error → ℕ → Key → V → W → Option Error × W
  unfolding digest quoted
  mysql_store (some e) now key v w = (some e, w)
  mysql_store none now key v w = upserted (row_of now key v) w
