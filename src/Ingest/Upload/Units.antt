-- ===== src/Ingest/Upload/Units.antt =====
-- The unit rows that an upload writes leave the calls alone.
use open_scanner.Base.{
  ℕ, ◌≡◌, refl, ap, ◌∙◌, inl, inr, Option, none, some, String, List, [], ◌∷◌, ◌++◌, keep, arith,
  Bool-cases, ℤ,
}
use open_scanner.Ingest.Tables.{RadioUnit, Call, Db, Faults}
use open_scanner.Ingest.Rows.{upsert_unit}
use open_scanner.Ingest.Sources.{
  Entry, unit_of, tag_of, upsert_entry, upsert_entries, upsert_all, upsert_units_from_sources,
}
use open_scanner.Ingest.Upload.{Env, HubCall, CalPayload, broadcast_cal}
use open_scanner.Ingest.Upload.Finish.{units_of_sources, unit_of_alias, upsert_units}
use open_scanner.Ingest.Upload.Quiet.{is_cal}

upsert_unit-calls :
    (fails : Faults) (db : Db) (u : RadioUnit) → (upsert_unit fails db u).calls ≡ db.calls
unfolding upsert_unit
upsert_unit-calls fails db u = ground arith

upsert_entry-calls :
    (fails : Faults) (system : ℕ) (db : Db) (unit : Option ℤ) (tag : Option String)
    → (upsert_entry fails system db unit tag).calls ≡ db.calls
upsert_entry-calls fails system db (some unit) (some tag) = upsert_unit-calls fails db _
upsert_entry-calls fails system db (some unit) none = refl
upsert_entry-calls fails system db none tag = refl

upsert_entries-calls :
    (fails : Faults) (system : ℕ) (es : List Entry) (db : Db)
    → (upsert_entries fails system es db).calls ≡ db.calls
unfolding upsert_entries
upsert_entries-calls fails system [] db = refl
upsert_entries-calls fails system (e ∷ es) db =
    upsert_entries-calls fails system es (upsert_entry fails system db (unit_of e) (tag_of e))
    ∙ upsert_entry-calls fails system db (unit_of e) (tag_of e)

upsert_all-calls :
    (fails : Faults) (system : ℕ) (o : Option (List Entry)) (db : Db)
    → (upsert_all fails system o db).calls ≡ db.calls
upsert_all-calls fails system none db = refl
upsert_all-calls fails system (some es) db = upsert_entries-calls fails system es db

units_of_sources-calls :
    (env : Env) (db : Db) (system : ℕ) (raw : Option String)
    → (units_of_sources env db system raw).calls ≡ db.calls
unfolding upsert_units_from_sources
units_of_sources-calls env db system none = refl
units_of_sources-calls env db system (some raw) =
    upsert_all-calls env.fails system (env.json.entries raw) db

unit_of_alias-calls :
    (env : Env) (db : Db) (system : ℕ) (source : Option ℤ) (alias : Option String)
    → (unit_of_alias env db system source alias).calls ≡ db.calls
unit_of_alias-calls env db system (some source) (some alias) = upsert_unit-calls env.fails db _
unit_of_alias-calls env db system (some source) none = refl
unit_of_alias-calls env db system none alias = refl

pub upsert_units-calls :
    (env : Env) (db : Db) (system : ℕ) (c : Call) → (upsert_units env db system c).calls ≡ db.calls
unfolding upsert_units
upsert_units-calls env db system c =
    unit_of_alias-calls env _ system c.source c.talker_alias
    ∙ units_of_sources-calls env db system c.sources_json

pub keep-append_cal :
    (hub : List HubCall) (p : CalPayload) (system t : ℕ)
    → keep is_cal (hub ++ (broadcast_cal p system t ∷ []))
      ≡ keep is_cal hub ++ (broadcast_cal p system t ∷ [])
keep-append_cal [] p system t = refl
keep-append_cal (h ∷ hub) p system t = elim (Bool-cases (is_cal h)) [
  | inl e ↦ rw e (ap (λ x. h ∷ x) (keep-append_cal hub p system t))
  | inr e ↦ rw e (keep-append_cal hub p system t)
]
