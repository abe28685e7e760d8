-- ===== src/Ingest/Upload/Imported.antt =====
-- What an import of `PostCallUpload`, backend/internal/handler/calls/upload.go, is to store and tell.
use open_scanner.Base.{◌≡◌, ◌⊎◌, ℕ, Option, some, String, pos}
use open_scanner.Ingest.Tables.{
  System, Talkgroup, Call, Db, found, no_rows, get_system_by_system_id, create_system,
  get_talkgroup, create_talkgroup,
}
use open_scanner.Ingest.Upload.{Env, Meta, CalPayload, CallEvent}
use open_scanner.Ingest.Upload.Parse.{or_else}
use open_scanner.Ingest.Upload.Finish.{duration_of, group_label, tag_label}

-- The row of the radio id that was sent, or a new one for it; `db'` is the database behind.
abbrev pub FoundSystem : Env → Db → Db → Meta → System → Type 0
FoundSystem env db db' meta system =
    ((get_system_by_system_id env.fails db meta.system_raw ≡ found system) × (db' ≡ db))
    ⊎ ((label : String) × (get_system_by_system_id env.fails db meta.system_raw ≡ no_rows)
        × (create_system env.fails db meta.system_raw label ≡ some (db', system)))

-- The row of the system and the talkgroup id that was sent, perhaps with fields filled, or a new one.
abbrev pub FoundTalkgroup : Env → Db → Meta → System → Talkgroup → Type 0
FoundTalkgroup env db meta system t =
    ((row : Talkgroup) × (get_talkgroup env.fails db system.id meta.talkgroup_raw ≡ found row)
      × (t.id ≡ row.id)
      × (t.system_id ≡ row.system_id)
      × (t.talkgroup_id ≡ row.talkgroup_id))
    ⊎ ((db' : Db) × (db'' : Db) × (label : Option String) × (name : Option String) × (group : Option
          ℕ)
        × (tag : Option ℕ) × (get_talkgroup env.fails db system.id meta.talkgroup_raw ≡ no_rows)
        × (create_talkgroup env.fails db' system.id meta.talkgroup_raw label name group tag
            ≡ some (db'', t)))

-- The row has what was sent.
pub record IsRowOf (env : Env) (meta : Meta) (system : System) (t : Talkgroup) (c : Call)
    : Type 0 where
  pub audio_name : c.audio_name ≡ env.base_name c.audio_path
  pub date_time : c.date_time ≡ meta.date_time
  pub frequency : c.frequency ≡ meta.frequency
  pub duration : c.duration ≡ duration_of env meta c.audio_path
  pub source : c.source ≡ meta.source
  pub sources : c.sources_json ≡ meta.sources
  pub frequencies : c.frequencies_json ≡ meta.frequencies
  pub patches : c.patches_json ≡ meta.patches
  pub in_system : c.system_id ≡ system.id
  pub in_talkgroup : c.talkgroup_id ≡ t.id
  pub site : c.site ≡ meta.site
  pub channel : c.channel ≡ meta.channel
  pub decoder : c.decoder ≡ meta.decoder
  pub error_count : c.error_count ≡ meta.error_count
  pub spike_count : c.spike_count ≡ meta.spike_count
  pub talker_alias : c.talker_alias ≡ meta.talker_alias

-- The live payload is of the row.
pub record IsPayloadOf (c : Call) (id : ℕ) (system : System) (t : Talkgroup) (p : CalPayload)
    : Type 0 where
  pub call_id : p.id ≡ id
  pub audio_name : p.audio_name ≡ c.audio_name
  pub audio_type : p.audio_type ≡ c.audio_type
  pub date_time : p.date_time ≡ c.date_time
  pub system_id : p.system_id ≡ system.system_id
  pub in_system : p.system ≡ system.id
  pub talkgroup_id : p.talkgroup_id ≡ t.talkgroup_id
  pub in_talkgroup : p.talkgroup ≡ t.id
  pub frequency : p.frequency ≡ c.frequency
  pub duration : p.duration ≡ c.duration
  pub source : p.source ≡ c.source
  pub site : p.site ≡ c.site
  pub channel : p.channel ≡ c.channel
  pub decoder : p.decoder ≡ c.decoder
  pub error_count : p.error_count ≡ c.error_count
  pub spike_count : p.spike_count ≡ c.spike_count
  pub talker_alias : p.talker_alias ≡ c.talker_alias
  pub sources : p.sources ≡ c.sources_json
  pub frequencies : p.frequencies ≡ c.frequencies_json

-- The event for other servers is of the row.
pub record IsEventOf (env : Env) (db : Db) (c : Call) (id : ℕ) (system : System) (t : Talkgroup)
    (e : CallEvent) : Type 0 where
  pub call_id : e.call_id ≡ id
  pub audio_path : e.audio_path ≡ c.audio_path
  pub audio_name : e.audio_name ≡ c.audio_name
  pub audio_type : e.audio_type ≡ c.audio_type
  pub date_time : e.date_time ≡ c.date_time
  pub system_id : e.system_id ≡ system.system_id
  pub in_system : e.system ≡ system.id
  pub talkgroup_id : e.talkgroup_id ≡ t.talkgroup_id
  pub in_talkgroup : e.talkgroup ≡ t.id
  pub frequency : e.frequency ≡ or_else c.frequency (pos 0)
  pub duration : e.duration ≡ or_else c.duration (pos 0)
  pub source : e.source ≡ or_else c.source (pos 0)
  pub sources : e.sources ≡ or_else c.sources_json ""
  pub frequencies : e.frequencies ≡ or_else c.frequencies_json ""
  pub patches : e.patches ≡ or_else c.patches_json ""
  pub system_label : e.system_label ≡ system.label
  pub talkgroup_label : e.talkgroup_label ≡ or_else t.label ""
  pub talkgroup_name : e.talkgroup_name ≡ or_else t.name ""
  pub talkgroup_group : e.talkgroup_group ≡ group_label env db t.group_id
  pub talkgroup_tag : e.talkgroup_tag ≡ tag_label env db t.tag_id
  pub talker_alias : e.talker_alias ≡ or_else c.talker_alias ""
