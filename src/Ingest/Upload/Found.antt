-- ===== src/Ingest/Upload/Found.antt =====
-- Which system and talkgroup `PostCallUpload` goes on with.
use open_scanner.Base.{◌≡◌, refl, inl, inr, Option, none, some, String, Bool-cases, str_eq, ℕ, ◌==◌}
use open_scanner.Ingest.Tables.{
  System, Talkgroup, Db, Lookup, found, no_rows, failed, get_setting_value, get_talkgroup,
  get_system_by_system_id, create_system, create_talkgroup,
}
use open_scanner.Ingest.Upload.{Env, Server, Meta, Step, halts, goes}
use open_scanner.Ingest.Upload.Resolve.{
  made_system, found_system, resolve_system, made_talkgroup, new_talkgroup, found_talkgroup,
  written, backfill, needs_backfill, resolve_talkgroup,
}
use open_scanner.Ingest.Upload.Imported.{FoundSystem, FoundTalkgroup}

abbrev pub SystemStep : Env → Db → Meta → Step System → Type 0
SystemStep env db meta (halts s r) = Unit
SystemStep env db meta (goes s system) = FoundSystem env db s.db meta system

abbrev pub TalkgroupStep : Env → Db → Meta → System → Step Talkgroup → Type 0
TalkgroupStep env db meta system (halts s r) = Unit
TalkgroupStep env db meta system (goes s t) = FoundTalkgroup env db meta system t

made_system-FoundSystem :
    (env : Env) (s : Server) (meta : Meta) (label : String) (o : Option (Db × System))
    → get_system_by_system_id env.fails s.db meta.system_raw ≡ no_rows
    → create_system env.fails s.db meta.system_raw label ≡ o
    → SystemStep env s.db meta (made_system env s o)
made_system-FoundSystem env s meta label none missing e = tt
made_system-FoundSystem env s meta label (some (db, system)) missing e =
    elim (Bool-cases env.has_hub) [
      | inl hub ↦ rw hub (inr (label, missing, e))
      | inr alone ↦ rw alone (inr (label, missing, e))
    ]

found_system-FoundSystem :
    (env : Env) (s : Server) (meta : Meta) (o : Lookup System)
    → get_system_by_system_id env.fails s.db meta.system_raw ≡ o
    → SystemStep env s.db meta (found_system env s meta o)
found_system-FoundSystem env s meta (found system) e = inl (e, refl)
found_system-FoundSystem env s meta failed e = tt
found_system-FoundSystem env s meta no_rows e =
    elim (Bool-cases (str_eq (get_setting_value env.fails s.db "autoPopulateSystems") "true")) [
      | inl on ↦ rw on (made_system-FoundSystem env s meta _ _ e refl)
      | inr off ↦ rw off tt
    ]

pub resolve_system-FoundSystem :
    (env : Env) (s : Server) (meta : Meta) → SystemStep env s.db meta (resolve_system env s meta)
unfolding resolve_system
resolve_system-FoundSystem env s meta = found_system-FoundSystem env s meta _ refl

made_talkgroup-FoundTalkgroup :
    (env : Env) (s : Server) (db' : Db) (meta : Meta) (system : System) (label name : Option String)
    (group tag : Option ℕ) (o : Option (Db × Talkgroup))
    → get_talkgroup env.fails s.db system.id meta.talkgroup_raw ≡ no_rows
    → create_talkgroup env.fails db' system.id meta.talkgroup_raw label name group tag ≡ o
    → TalkgroupStep env s.db meta system (made_talkgroup env s db' o)
made_talkgroup-FoundTalkgroup env s db' meta system label name group tag none missing e = tt
made_talkgroup-FoundTalkgroup env s db' meta system label name group tag (some (db'', t)) missing
      e =
    inr (db', db'', label, name, group, tag, missing, e)

written-FoundTalkgroup :
    (env : Env) (s : Server) (db : Db) (meta : Meta) (system : System) (t row : Talkgroup)
    (o : Option Db)
    → get_talkgroup env.fails s.db system.id meta.talkgroup_raw ≡ found row
    → t.id ≡ row.id
    → t.system_id ≡ row.system_id
    → t.talkgroup_id ≡ row.talkgroup_id
    → TalkgroupStep env s.db meta system (written env s db t o)
written-FoundTalkgroup env s db meta system t row none e i j k = inl (row, e, i, j, k)
written-FoundTalkgroup env s db meta system t row (some db') e i j k = inl (row, e, i, j, k)

found_talkgroup-FoundTalkgroup :
    (env : Env) (s : Server) (meta : Meta) (system : System) (o : Lookup Talkgroup)
    → get_talkgroup env.fails s.db system.id meta.talkgroup_raw ≡ o
    → TalkgroupStep env s.db meta system (found_talkgroup env s meta system o)
unfolding backfill new_talkgroup
found_talkgroup-FoundTalkgroup env s meta system (found t) e =
    elim (Bool-cases (needs_backfill t meta)) [
      | inl fill ↦ rw fill (written-FoundTalkgroup env s _ meta system _ t _ e refl refl refl)
      | inr full ↦ rw full (inl (t, e, refl, refl, refl))
    ]
found_talkgroup-FoundTalkgroup env s meta system failed e = tt
found_talkgroup-FoundTalkgroup env s meta system no_rows e =
    elim (Bool-cases (system.auto_populate_talkgroups == 0)) [
      | inl off ↦ rw off tt
      | inr on ↦ rw on (made_talkgroup-FoundTalkgroup env s _ meta system _ _ _ _ _ e refl)
    ]

pub resolve_talkgroup-FoundTalkgroup :
    (env : Env) (s : Server) (meta : Meta) (system : System)
    → TalkgroupStep env s.db meta system (resolve_talkgroup env s meta system)
unfolding resolve_talkgroup
resolve_talkgroup-FoundTalkgroup env s meta system =
    found_talkgroup-FoundTalkgroup env s meta system _ refl
