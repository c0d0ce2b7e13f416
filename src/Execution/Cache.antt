-- ===== src/Execution/Cache.antt =====
-- Keys and file entries of execution/cache.go, and MemoryStore of flow/store.go. The JSON encodings,
-- SHA-256 and hexadecimal digits of Go's library, and the file system, are parameters. A cache and
-- a target are not nil.
pub mod Durable
use flowkit.Base.{
  ℕ, String, Bool, true, false, not, ◌&&◌, ◌||◌, Option, none, some, if◌then◌else◌, str_eq, ◌==◌,
  ltb, length,
}
use flowkit.Base.Int.{ℤ, pos, pos_part, ltb_ℤ, eqb_ℤ}
use flowkit.Base.Assoc.{Assoc, lookup, insert}
use flowkit.Errors.{
  Error, message, wrapped, sentinel, corrupt_cache, Result, ok, err, ◌>>=◌, labelled,
}

pub record Key : Type 0 where
  pub step : String
  pub version : String
  pub input_digest : String

pub record Envelope : Type 0 where
  pub schema_version : String
  pub key : Key
  pub value_digest : String
  pub value : String

-- What the code uses of encoding/json, crypto/sha256 and encoding/hex: `value_of` is the strict
-- decoder of internal/jsonutil, `unmarshal` is json.Unmarshal.
pub record Codec (V : Type 0) : Type 0 where
  pub size : String → ℕ
  pub is_hex : String → Bool
  pub hash : String → String
  pub key_json : Key → String
  pub value_json : V → Result String
  pub value_of : String → Result V
  pub unmarshal : String → Result V
  pub envelope_json : Envelope → Result String
  pub envelope_of : String → Result Envelope

-- What the code uses of the file system. A size is none where no file exists, and the path is the
-- directory's entry of a digest.
pub record Disk (W : Type 0) : Type 0 where
  pub path : String → String → String
  pub stat : String → W → Result (Option ℕ)
  pub read : String → W → Result String
  pub publish : String → String → W → Option Error × W

module _ {V : Type 0} (c : Codec V) where
  unfoldable pub validate : Key → Result (Unit {0})
  validate key =
      if str_eq key.step "" || str_eq key.version ""
      then err (message "cache key step and version are required")
      else if not (c.size key.input_digest == 64)
      then err (message "cache key input digest is invalid")
      else if not (c.is_hex key.input_digest)
      then err (message "cache key input digest is invalid: %w")
      else ok tt

  unfoldable pub digest : Key → Result String
  unfolding validate
  digest key = validate key >>= λ _. ok (c.hash (c.key_json key))

  -- NewKey, whose input is encoded as any value is
  unfoldable pub new_key : String → String → V → Result Key
  new_key step version input =
      if str_eq step ""
      then err (message "cache step is required")
      else if str_eq version ""
      then err (message "cache step version is required")
      else labelled "marshal cache input: %w" (c.value_json input) >>= λ bytes.
          ok (record { step = step; version = version; input_digest = c.hash bytes })

  -- MemoryStore: the encoded values by digest.
  abbrev pub decoded : Option String → Result (Option V)
  decoded none = ok none
  decoded (some bytes) =
      labelled "decode memory store entry: %w" (c.unmarshal bytes) >>= λ v. ok (some v)

  unfoldable pub memory_load : Option Error → Key → Assoc String → Result (Option V)
  unfolding digest
  memory_load (some e) key entries = err e
  memory_load none key entries = digest key >>= λ d. decoded (lookup d entries)

  unfoldable pub memory_store : Option Error → Key → V → Assoc String → Result (Assoc String)
  unfolding digest
  memory_store (some e) key v entries = err e
  memory_store none key v entries = digest key >>= λ d.
      labelled "marshal memory store value: %w" (c.value_json v) >>= λ bytes.
      ok (insert d bytes entries)

  -- Len
  unfoldable pub memory_len : Assoc String → ℕ
  memory_len entries = length entries

pub record FileCache : Type 0 where
  pub directory : String
  pub max_entry_bytes : ℕ

abbrev pub schema : String
schema = "rag-ttc-execution-cache/v1"

-- NewFileCache, after its directory has been made: a limit of 0 is 16 MiB.
unfoldable pub new_file_cache : String → ℤ → Result FileCache
new_file_cache directory max =
    if str_eq directory ""
    then err (message "cache directory is required")
    else if eqb_ℤ max (pos 0)
    then ok (record { directory = directory; max_entry_bytes = 16777216 })
    else if ltb_ℤ max (pos 1)
    then err (message "cache maximum entry bytes must be positive")
    else ok (record { directory = directory; max_entry_bytes = pos_part max })

abbrev pub key_eq : Key → Key → Bool
key_eq a b =
    str_eq a.step b.step && (str_eq a.version b.version && str_eq a.input_digest b.input_digest)

module _ {V W : Type 0} (c : Codec V) (d : Disk W) where
  abbrev pub corrupt : {A : Type 0} → Result A
  corrupt = err (wrapped "%w" (sentinel corrupt_cache))

  -- The envelope is the key's own, and so is its value.
  abbrev pub is_own : Key → Envelope → Bool
  is_own key e =
      str_eq e.schema_version schema && (key_eq e.key key && str_eq e.value_digest (c.hash e.value))

  -- A value that decodes, else a corrupt entry.
  abbrev pub opened_value : Result V → Result (Option V)
  opened_value (ok v) = ok (some v)
  opened_value (err e) = corrupt

  abbrev pub opened : Key → Result Envelope → Result (Option V)
  opened key (err e) = corrupt
  opened key (ok e) = if is_own key e then opened_value (c.value_of e.value) else corrupt

  abbrev pub read_entry : FileCache → Key → String → W → Option ℕ → Result (Option V)
  read_entry f key path w none = ok none
  read_entry f key path w (some size) =
      if ltb f.max_entry_bytes size
      then corrupt
      else labelled "read cache entry: %w" (d.read path w) >>= λ bytes.
          opened key (c.envelope_of bytes)

  unfoldable pub load : Option Error → FileCache → Key → W → Result (Option V)
  unfolding digest
  load (some e) f key w = err e
  load none f key w = digest c key >>= λ h.
      labelled "stat cache entry: %w" (d.stat (d.path f.directory h) w) >>= λ size.
      read_entry f key (d.path f.directory h) w size

  abbrev pub envelope : Key → String → Envelope
  envelope key bytes = record {
    schema_version = schema;
    key = key;
    value_digest = c.hash bytes;
    value = bytes;
  }

  -- The bytes of an entry.
  unfoldable pub entry : FileCache → Key → V → Result String
  entry f key v = labelled "marshal cache value: %w" (c.value_json v) >>= λ value.
      labelled "marshal cache envelope: %w" (c.envelope_json (envelope key value)) >>= λ bytes.
      if ltb f.max_entry_bytes (c.size bytes)
      then err (message "cache entry is %d bytes, maximum is %d")
      else ok bytes

  abbrev pub named_failure : String → Option Error × W → Option Error × W
  named_failure word (none, w) = (none, w)
  named_failure word (some e, w) = (some (wrapped word e), w)

  abbrev pub publish : String → Result String → W → Option Error × W
  publish path (err e) w = (some e, w)
  publish path (ok bytes) w = named_failure "publish cache entry: %w" (d.publish path bytes w)

  abbrev pub store_at : FileCache → Key → V → Result String → W → Option Error × W
  store_at f key v (err e) w = (some e, w)
  store_at f key v (ok h) w = publish (d.path f.directory h) (entry f key v) w

  unfoldable pub store : Option Error → FileCache → Key → V → W → Option Error × W
  unfolding digest entry
  store (some e) f key v w = (some e, w)
  store none f key v w = store_at f key v (digest c key) w
