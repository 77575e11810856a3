-- ===== src/Telemetry/BuildId.antt =====
-- The fingerprint of a build: crates/forge-index-telemetry/src/build_id.rs. The digest and the printer of
-- numbers and texts are parameters. Texts are compared by code points, whose order is that of their bytes.
pub mod Joined
pub mod Order
use forge_index.Base.{ℕ, Bool, true, false, not, List, [], ◌∷◌, ◌++◌, map, ltb, ◌==◌, if◌then◌else◌}
use forge_index.Base.Json.{
  Json, null, boolean, number, string, array, object, Items, nil, cons, Fields, end, field,
}
use forge_index.Base.Sort.{sort_by}
use forge_index.Base.Text.{Text, codes, join, text_eq}

-- the order of texts
unfoldable pub text_le : Text → Text → Bool
text_le [] t = true
text_le (c ∷ s) [] = false
text_le (c ∷ s) (d ∷ t) =
    let rest = text_le s t in if ltb c d then true else if c == d then rest else false

abbrev pub key_le : Text × Text → Text × Text → Bool
key_le (k, v) (j, u) = text_le k j

-- `"k":v`
abbrev pub part : Text × Text → Text
part (k, v) = codes "\"" ++ (k ++ (codes "\":" ++ v))

-- what the digest is fed with, one after the other
abbrev pub fed : List Text → Text
fed [] = []
fed (k ∷ ks) = k ++ fed ks

module _ (to_string : Json → Text) where
  unfoldable mutual
    pub canonical_json : Json → Text
    canonical_json (object fields) =
        codes "{"
        ++ (join (codes ",") (map part (sort_by key_le (canonical_fields fields))) ++ codes "}")
    canonical_json (array items) =
        codes "[" ++ (join (codes ",") (canonical_items items) ++ codes "]")
    canonical_json null = to_string null
    canonical_json (boolean b) = to_string (boolean b)
    canonical_json (number n) = to_string (number n)
    canonical_json (string s) = to_string (string s)

    pub canonical_items : Items → List Text
    canonical_items nil = []
    canonical_items (cons v rest) = canonical_json v ∷ canonical_items rest

    pub canonical_fields : Fields → List (Text × Text)
    canonical_fields end = []
    canonical_fields (field k v rest) = (k, canonical_json v) ∷ canonical_fields rest

  unfoldable pub compute_build_id :
      (sha256_hex : Text → Text) (config schema : Json) (handler_keys : List Text) → Text
  compute_build_id sha256_hex config schema handler_keys =
      sha256_hex
        (canonical_json config ++ (canonical_json schema ++ fed (sort_by text_le handler_keys)))

unfoldable pub build_id_changed : (old new : Text) → Bool
build_id_changed old new = not (text_eq old new)
