-- ===== src/Telemetry/Examples.antt =====
-- The fingerprints of two builds: crates/forge-index-telemetry/src/build_id.rs.
use forge_index.Base.{◌≡◌, ◌≢◌, refl, ap, true, false, [], ◌∷◌}
use forge_index.Base.Json.{null, array, nil, object, field, end}
use forge_index.Base.Text.{codes, text_eq}
use forge_index.Telemetry.BuildId.{text_le, canonical_json, compute_build_id}
use forge_index.Telemetry.BuildId.Joined.{compute_build_id_joined}
use forge_index.Telemetry.BuildId.Order.{swap, canonical_json-Reorder}

joined_keys :
    compute_build_id
      (λ j. codes "1")
      (λ t. t)
      null
      (array nil)
      (codes "Token:A" ∷ codes "Token:B" ∷ [])
    ≡ compute_build_id (λ j. codes "1") (λ t. t) null (array nil) (codes "Token:AToken:B" ∷ [])
unfolding text_le
joined_keys =
    compute_build_id_joined (λ j. codes "1") (λ t. t) null (array nil) (codes "Token:A")
      (codes "Token:B") refl

-- the keys of an object are put in order
keys_in_order :
    canonical_json (λ j. codes "1") (object (field (codes "b") null (field (codes "a") null end)))
    ≡ codes "{\"a\":1,\"b\":1}"
unfolding canonical_json text_le
keys_in_order = refl

not_false : true ≢ false
not_false e = cc e

other_key : codes "b" ≢ codes "a"
unfolding text_eq
other_key e = not_false (ap (λ t. text_eq t (codes "b")) e)

canonical_json-Reorder_example :
    canonical_json (λ j. codes "1") (object (field (codes "b") null (field (codes "a") null end)))
    ≡ canonical_json (λ j. codes "1") (object (field (codes "a") null (field (codes "b") null end)))
canonical_json-Reorder_example = canonical_json-Reorder (λ j. codes "1") (swap other_key)
