-- ===== src/Db/ManagerExamples.antt =====
-- A database that holds one build id: crates/forge-index-db/src/manager.rs.
use forge_index.Base.{◌≡◌, refl, sym, ap, Option, none, some, List, [], ◌∷◌}
use forge_index.Base.Exec.{Result, ok, err}
use forge_index.Base.Text.{Text, codes, text_eq}
use forge_index.Config.Schema.{to_create_sql}
use forge_index.Config.Types.{TableDef}
use forge_index.Db.Manager.{
  Driver, SqlError, row_not_found, Bind, text, big_int, same, changed, setup, check_build_id,
  run_statements, build_id,
}
use forge_index.Db.Manager.Checked.{check_build_id-setup}

abbrev bound : List Bind → Option Text → Option Text
bound [] w = w
bound (text v ∷ rest) w = some v
bound (big_int n ∷ rest) w = w

abbrev stored : Option Text → Result SqlError Text
stored none = err row_not_found
stored (some v) = ok v

abbrev driver : Driver (Option Text)
driver = record {
  connect = λ url n w. (ok tt, w);
  execute = λ sql binds w. (ok tt, bound binds w);
  fetch_one = λ sql w. (stored w, w);
  show = λ e. codes "error";
}

abbrev digest : Text → Text
digest t = t

abbrev schema_json : List TableDef → Text
schema_json [] = codes "[]"
schema_json (t ∷ tables) = codes t.name

-- another schema was stored before
check_build_id-setup_example :
    (check_build_id driver digest schema_json [] (codes "public") (some (codes "[]"))).0 ≡ ok same
unfolding setup run_statements to_create_sql build_id
check_build_id-setup_example =
    check_build_id-setup driver digest schema_json (codes "public") [] (some (codes "old"))
      (some (codes "[]")) (λ v w w' h. ap stored (sym (ap (λ o. o.1) h))) refl

check_build_id_before :
    (check_build_id driver digest schema_json [] (codes "public") (some (codes "old"))).0
    ≡ ok (changed (codes "old") (codes "[]"))
unfolding check_build_id text_eq build_id
check_build_id_before = refl
