-- ===== src/Examples/Stores.antt =====
-- The file cache and groups at concrete inputs: text stored as it is, in files that are a list.
use flowkit.Base.{◌≡◌, refl, String, true, none, some, List, [], ◌∷◌, ◌++◌}
use flowkit.Base.Assoc.{Assoc, lookup, insert}
use flowkit.Errors.{message, ok, err}
use flowkit.Execution.Cache.{
  Key, Envelope, Codec, Disk, FileCache, load, store, schema, digest, validate, entry,
}
use flowkit.Execution.Cache.Durable.{Backed, load-Backed}
use flowkit.Execution.Group.{Group, group_items, add_item}
use flowkit.Execution.Group.Positions.{indexes_of, positions, group_items-positions}

abbrev pub key : Key
key = record { step = "embed"; version = "v1"; input_digest = "abc" }

abbrev written : String → Envelope
written s = record { schema_version = schema; key = key; value_digest = s; value = s }

abbrev pub codec : Codec String
codec = record {
  size = λ s. 64;
  is_hex = λ s. true;
  hash = λ s. s;
  key_json = λ k. k.input_digest;
  value_json = λ v. ok v;
  value_of = λ s. ok s;
  unmarshal = λ s. ok s;
  envelope_json = λ e. ok e.value;
  envelope_of = λ s. ok (written s);
}

abbrev disk : Disk (Assoc String)
disk = record {
  path = λ dir d. d;
  stat = λ p w. ok (elim (lookup p w) [ none ↦ none | some b ↦ some 64 ]);
  read = λ p w. elim (lookup p w) [ none ↦ err (message "gone") | some b ↦ ok b ];
  publish = λ p b w. (none, insert p b w);
}

abbrev cache : FileCache
cache = record { directory = "cache"; max_entry_bytes = 100 }

abbrev saved : Assoc String
saved = ("abc", "vector") ∷ []

file_saved : store codec disk none cache key "vector" [] ≡ (none, saved)
unfolding store digest validate entry insert
file_saved = refl

file_loaded : load codec disk none cache key saved ≡ ok (some "vector")
unfolding load digest validate lookup
file_loaded = refl

load-Backed_example : Backed codec disk cache key "vector" saved
load-Backed_example = load-Backed codec disk cache key "vector" saved file_loaded

abbrev texts : List String
texts = "a" ∷ "b" ∷ "a" ∷ []

abbrev grouped : List (Group String String)
grouped =
    record { digest = "a"; key = "a"; item = "a"; indexes = 0 ∷ 2 ∷ [] }
    ∷ record { digest = "b"; key = "b"; item = "b"; indexes = 1 ∷ [] }
    ∷ []

texts-grouped : group_items (λ t. ok t) (λ k. ok k) 0 texts [] ≡ ok grouped
unfolding group_items add_item
texts-grouped = refl

group_items-positions_example :
    indexes_of "a" grouped
    ≡ indexes_of {K = String} {T = String} "a" [] ++ positions (λ t. ok t) (λ k. ok k) "a" 0 texts
group_items-positions_example =
    group_items-positions (λ t. ok t) (λ k. ok k) "a" 0 texts [] grouped texts-grouped
