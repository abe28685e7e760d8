-- ===== src/Ingest/UploadV1/SameFinish.antt =====
-- The native upload stores and announces a call as the legacy one does.
use open_scanner.Base.{
  ℕ, ◌≡◌, refl, ap, ◌∙◌, inl, inr, Option, none, some, String, [], ◌∷◌, ◌++◌, str_eq, Bool-cases,
  Option-cases, ℤ, pos, eq_ℤ,
}
use open_scanner.Ingest.Tables.{
  System, Talkgroup, LabelRow, Call, Db, Lookup, found, no_rows, failed,
}
use open_scanner.Ingest.Rows.{create_call, get_group, get_tag}
use open_scanner.Ingest.Upload.{Env, Server, Response, Meta}
use open_scanner.Ingest.Upload.Parse.{or_else}
use open_scanner.Ingest.Upload.Finish.{
  conversion_mode, audio_type_of, duration_of, call_row, label_of, group_label, tag_label,
  call_event, units_of_sources, unit_of_alias, upsert_units, announce, store_call,
}
use open_scanner.Ingest.UploadV1.{ResponseV1}
use open_scanner.Ingest.UploadV1.Finish.{
  mode_v1, audio_type_v1, probed, call_row_v1, label_if_found, group_label_v1, tag_label_v1,
  int64_of, string_of, event_v1, source_units, alias_unit, announce_v1, stored_v1,
}
use open_scanner.Ingest.UploadV1.SameRows.{translated}

-- A result of the legacy handler in the terms of the native one.
abbrev pub result_v1 : Meta → Server × Response → Server × ResponseV1
result_v1 meta (s, r) = (s, translated meta r)

pub mode-same : (env : Env) (v : String) → mode_v1 env v ≡ conversion_mode env v
mode-same env v = elim (Bool-cases (str_eq v "")) [
  | inl e ↦ rw e refl
  | inr e ↦ elim (Option-cases (env.parse_int v)) [
    | inl p ↦ rw (e, p) refl
    | inr (n, p) ↦ rw (e, p) refl
  ]
]

audio_type-same :
    (mode : ℤ) (preset content_type : String)
    → audio_type_v1 mode preset content_type ≡ audio_type_of mode preset content_type
unfolding audio_type_v1 audio_type_of
audio_type-same mode preset content_type = elim (Bool-cases (eq_ℤ mode (pos 0))) [
  | inl e ↦ rw e refl
  | inr e ↦ rw e refl
]

probed-same :
    (env : Env) (meta : Meta) (path : String)
    → probed env meta.duration path ≡ duration_of env meta path
probed-same env meta path = elim (Option-cases meta.duration) [
  | inl e ↦ rw e refl
  | inr (d, e) ↦ rw e refl
]

label_if_found-same : (o : Lookup LabelRow) → label_if_found o ≡ label_of o
label_if_found-same (found row) = refl
label_if_found-same no_rows = refl
label_if_found-same failed = refl

group_label-same :
    (env : Env) (db : Db) (o : Option ℕ) → group_label_v1 env db o ≡ group_label env db o
group_label-same env db none = refl
group_label-same env db (some id) = label_if_found-same (get_group env.fails db id)

tag_label-same : (env : Env) (db : Db) (o : Option ℕ) → tag_label_v1 env db o ≡ tag_label env db o
tag_label-same env db none = refl
tag_label-same env db (some id) = label_if_found-same (get_tag env.fails db id)

int64_of-same : (o : Option ℤ) → int64_of o ≡ or_else o (pos 0)
int64_of-same none = refl
int64_of-same (some n) = refl

string_of-same : (o : Option String) → string_of o ≡ or_else o ""
string_of-same none = refl
string_of-same (some s) = refl

event-same :
    (env : Env) (db : Db) (c : Call) (id : ℕ) (system : System) (t : Talkgroup)
    → event_v1 env db c id system t ≡ call_event env db c id system t
event-same env db c id system t =
    rw
      (
        int64_of-same c.frequency,
        int64_of-same c.duration,
        int64_of-same c.source,
        string_of-same c.sources_json,
        string_of-same c.frequencies_json,
        string_of-same c.patches_json,
        string_of-same t.label,
        string_of-same t.name,
        string_of-same c.talker_alias,
        group_label-same env db t.group_id,
        tag_label-same env db t.tag_id,
      )
      refl

source_units-same :
    (env : Env) (db : Db) (system : ℕ) (o : Option String)
    → source_units env db system o ≡ units_of_sources env db system o
source_units-same env db system none = refl
source_units-same env db system (some raw) = refl

alias_unit-same :
    (env : Env) (db : Db) (system : ℕ) (source : Option ℤ) (alias : Option String)
    → alias_unit env db system source alias ≡ unit_of_alias env db system source alias
alias_unit-same env db system (some source) (some alias) = refl
alias_unit-same env db system (some source) none = refl
alias_unit-same env db system none alias = refl

units-same :
    (env : Env) (db : Db) (system : ℕ) (c : Call)
    → alias_unit env (source_units env db system c.sources_json) system c.source c.talker_alias
      ≡ upsert_units env db system c
unfolding upsert_units
units-same env db system c =
    ap (λ d. alias_unit env d system c.source c.talker_alias)
      (source_units-same env db system c.sources_json)
    ∙ alias_unit-same env (units_of_sources env db system c.sources_json) system c.source
        c.talker_alias

-- Behind the row, with the database that the units left and the event.
module _ (env : Env) (meta : Meta) (s : Server) (c : Call) (system : System) (t : Talkgroup) where
  announce-same :
      (o : Option (Db × ℕ))
      → announce_v1 env s c system t o ≡ result_v1 meta (announce env s c system t o)
  announce-same none = refl
  announce-same (some (db, id)) =
      rw
        (
          units-same env db system.id c,
          event-same env (upsert_units env db system.id c) c id system t,
        )
        refl

pub stored-same :
    (env : Env) (s : Server) (meta : Meta) (system : System) (t : Talkgroup) (mode : ℤ)
    (preset content_type : String) (o : Option String)
    → stored_v1 env s meta system t mode preset content_type o
      ≡ result_v1 meta (store_call env s meta system t mode preset content_type o)
stored-same env s meta system t mode preset content_type none = refl
stored-same env s meta system t mode preset content_type (some path) =
    ap
      (λ c.
        announce_v1 env (record s { recordings = s.recordings ++ (path ∷ []) }) c system t
          (create_call env.fails s.db c))
      (row-same path)
    ∙ announce-same env meta (record s { recordings = s.recordings ++ (path ∷ []) })
        (call_row env meta system t path (audio_type_of mode preset content_type)) system t
        (create_call env.fails s.db
          (call_row env meta system t path (audio_type_of mode preset content_type)))
  where
    row-same :
        (path : String)
        → call_row_v1 env meta system t path (audio_type_v1 mode preset content_type)
          ≡ call_row env meta system t path (audio_type_of mode preset content_type)
    row-same path = rw (audio_type-same mode preset content_type, probed-same env meta path) refl
