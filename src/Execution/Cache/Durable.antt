-- ===== src/Execution/Cache/Durable.antt =====
-- What an entry must be that FileCache.Load of execution/cache.go returns the value of.
use flowkit.Base.{
  ◌≡◌, refl, ap, ◌∙◌, ℕ, ◌≤◌, String, Bool, true, false, Option, none, some, str_eq_iff,
  if◌then◌else◌, ltb, arith,
}
use flowkit.Errors.{Result, ok, err, ◌>>=◌, >>=-eq-ok, labelled, labelled-eq-ok}
use flowkit.Execution.Cache.{
  Key, Envelope, Codec, Disk, FileCache, digest, schema, key_eq, is_own, opened, corrupt,
  read_entry, load,
}

-- The entry that a loaded value comes from.
pub record Backed {V W : Type 0} (c : Codec V) (d : Disk W) (f : FileCache) (key : Key) (v : V)
    (w : W) : Type 0 where
  pub digest_of : String
  pub size : ℕ
  pub bytes : String
  pub parsed : Envelope
  pub named : digest c key ≡ ok digest_of
  pub found : d.stat (d.path f.directory digest_of) w ≡ ok (some size)
  pub fits : size ≤ f.max_entry_bytes
  pub read : d.read (d.path f.directory digest_of) w ≡ ok bytes
  pub decodes : c.envelope_of bytes ≡ ok parsed
  pub of_schema : parsed.schema_version ≡ schema
  pub of_key : key_eq parsed.key key ≡ true
  pub of_value : parsed.value_digest ≡ c.hash parsed.value
  pub value : c.value_of parsed.value ≡ ok v

module _ {V W : Type 0} (c : Codec V) (d : Disk W) where
  opened_ok :
      (key : Key) (x : Result Envelope) (v : V)
      → opened c d key x ≡ ok (some v)
      → (e : Envelope) × (x ≡ ok e) × (is_own c d key e ≡ true) × (c.value_of e.value ≡ ok v)
  opened_ok key (err x) v h = cc
  opened_ok key (ok e) v h = (e, refl, ground arith, ground arith)

  read_entry_ok :
      (f : FileCache) (key : Key) (path : String) (w : W) (o : Option ℕ) (v : V)
      → read_entry c d f key path w o ≡ ok (some v)
      → (size : ℕ) × (bytes : String) × (o ≡ some size)
        × (size ≤ f.max_entry_bytes)
        × (d.read path w ≡ ok bytes)
        × (opened c d key (c.envelope_of bytes) ≡ ok (some v))
  read_entry_ok f key path w none v h = cc
  read_entry_ok f key path w (some size) v h = small (ltb f.max_entry_bytes size) refl h
    where
      small :
          (b : Bool)
          → ltb f.max_entry_bytes size ≡ b
          → (if b
              then corrupt c d
              else labelled "read cache entry: %w" (d.read path w) >>= λ bytes.
                  opened c d key (c.envelope_of bytes))
            ≡ ok (some v)
          → (n : ℕ) × (bytes : String) × (some size ≡ some n)
            × (n ≤ f.max_entry_bytes)
            × (d.read path w ≡ ok bytes)
            × (opened c d key (c.envelope_of bytes) ≡ ok (some v))
      small true e h = cc
      small false e h =
          let (bytes, rd, rest) = >>=-eq-ok (labelled "read cache entry: %w" (d.read path w)) _ h in
          (size, bytes, refl, ground arith, labelled-eq-ok _ _ bytes rd, rest)

  -- Corruption fails closed: a value is loaded only from an entry that stands under the key's digest,
  -- is no longer than the limit, decodes to an envelope of this schema, this key and the digest of
  -- its own value, and whose value decodes to the value loaded.
  pub load-Backed :
      (f : FileCache) (key : Key) (v : V) (w : W)
      → load c d none f key w ≡ ok (some v)
      → Backed c d f key v w
  unfolding load
  load-Backed f key v w e =
      let (h, hd, rest) = >>=-eq-ok (digest c key) _ e in
      let (found, st, more) =
        >>=-eq-ok (labelled "stat cache entry: %w" (d.stat (d.path f.directory h) w)) _ rest in
      let (size, bytes, fs, fits, rd, op) = read_entry_ok f key _ w found v more in
      let (env, dec, own, val) = opened_ok key (c.envelope_of bytes) v op in
      record {
        digest_of = h;
        size = size;
        bytes = bytes;
        parsed = env;
        named = hd;
        found = labelled-eq-ok _ _ found st ∙ ap ok fs;
        fits = fits;
        read = rd;
        decodes = dec;
        of_schema = ground (arith, str_eq_iff env.schema_version schema);
        of_key = ground arith;
        of_value = ground (arith, str_eq_iff env.value_digest (c.hash env.value));
        value = val;
      }
