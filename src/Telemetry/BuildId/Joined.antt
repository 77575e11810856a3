-- ===== src/Telemetry/BuildId/Joined.antt =====
-- Builds with the same fingerprint: crates/forge-index-telemetry/src/build_id.rs.
use forge_index.Base.{◌≡◌, sym, ap, true, [], ◌∷◌, ◌++◌, append_assoc}
use forge_index.Base.Json.{Json}
use forge_index.Base.Text.{Text}
use forge_index.Telemetry.BuildId.{text_le, canonical_json, compute_build_id}

-- The handler keys are digested without anything between them: for two keys in order, and for the one key
-- that they make when joined, the fingerprint of a configuration and a schema is the same.
pub compute_build_id_joined :
    (to_string : Json → Text) (sha256_hex : Text → Text) (config schema : Json) (a b : Text)
    → text_le a b ≡ true
    → compute_build_id to_string sha256_hex config schema (a ∷ b ∷ [])
      ≡ compute_build_id to_string sha256_hex config schema ((a ++ b) ∷ [])
unfolding compute_build_id
compute_build_id_joined to_string sha256_hex config schema a b in_order =
    ap
      (λ keys.
        sha256_hex (canonical_json to_string config ++ (canonical_json to_string schema ++ keys)))
      (rw in_order (sym (append_assoc a b [])))
