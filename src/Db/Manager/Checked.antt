-- ===== src/Db/Manager/Checked.antt =====
-- What the check of the build id finds after the setup: crates/forge-index-db/src/manager.rs.
use forge_index.Base.{◌≡◌, ap, ◌∙◌, List, [], ◌∷◌, if◌then◌else◌}
use forge_index.Base.Exec.{Result, ok, err, Exec, map_error, continue, ◌>>◌}
use forge_index.Base.Text.{Text}
use forge_index.Base.Text.Equal.{text_eq_self}
use forge_index.Config.Schema.{to_create_sql}
use forge_index.Config.Types.{TableDef}
use forge_index.Db.Error.{migration}
use forge_index.Db.Manager.{
  Driver, text, same, changed, status_of_stored, build_id, upsert_sql, select_sql,
  create_schema_sql, meta_sql, migrate, run_statements, setup, check_build_id,
}

module _ {S E A : Type 0} where
  last_ok :
      {B : Type 0} (r : Result E B) (d : Exec S E A) (s t : S) (a : A)
      → Path (Result E A × S) (continue r (λ _. d) s) (ok a, t)
      → d s ≡ (ok a, t)
  last_ok (ok b) d s t a h = h
  last_ok (err e) d s t a h = cc h

  ok_below :
      {F : Type 0} (f : F → E) (r : Result F A) (s t : S) (a : A)
      → Path (Result E A × S) (map_error f r, s) (ok a, t)
      → Path (Result F A × S) (r, s) (ok a, t)
  ok_below f (ok b) s t a h = cc h
  ok_below f (err e) s t a h = cc h

module _ {W : Type 0} (driver : Driver W) (sha256_hex : Text → Text)
    (schema_json : List TableDef → Text) (pg_schema : Text) where
  -- an id that is stored is read again
  abbrev pub IsStored : Type 0
  IsStored =
      (v : Text) (w w' : W)
      → driver.execute (upsert_sql pg_schema) (text v ∷ []) w ≡ (ok tt, w')
      → (driver.fetch_one (select_sql pg_schema) w').0 ≡ ok v

  -- After a setup that succeeds, the check of the same schema says that the build is the same, whatever
  -- was stored before, if the database returns the id that was last stored.
  pub check_build_id-setup :
      (schema : List TableDef) (w w' : W)
      → IsStored
      → setup driver sha256_hex schema_json schema pg_schema w ≡ (ok tt, w')
      → (check_build_id driver sha256_hex schema_json schema pg_schema w').0 ≡ ok same
  unfolding setup check_build_id
  check_build_id-setup schema w w' stored done =
      let v = build_id sha256_hex schema_json schema in
      let before =
        (migrate driver (create_schema_sql pg_schema) []
            >> run_statements driver (to_create_sql pg_schema schema)
            >> migrate driver (meta_sql pg_schema) [])
          w in
      let upsert = driver.execute (upsert_sql pg_schema) (text v ∷ []) before.1 in
      let written =
        ok_below (λ e. migration (driver.show e)) upsert.0 upsert.1 w' tt
          (last_ok before.0 (migrate driver (upsert_sql pg_schema) (text v ∷ [])) before.1 w' tt
            done) in
      ap (status_of_stored driver sha256_hex schema_json schema pg_schema v)
        (stored v before.1 w' written)
      ∙ ap (λ b. if b then ok same else ok (changed v v)) (text_eq_self v)
