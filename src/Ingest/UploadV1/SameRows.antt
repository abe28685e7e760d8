-- ===== src/Ingest/UploadV1/SameRows.antt =====
-- The native upload finds and makes the same rows as the legacy one.
use open_scanner.Base.{
  ℕ, ◌≡◌, refl, ap, ◌∙◌, inl, inr, Bool, true, false, not, Option, none, some, String,
  if◌then◌else◌, str_eq, Bool-cases, Option-cases, ◌==◌,
}
use open_scanner.Ingest.Tables.{
  System, Talkgroup, Db, Lookup, found, no_rows, failed, get_setting_value, get_system_by_system_id,
  get_talkgroup, create_talkgroup, update_talkgroup,
}
use open_scanner.Ingest.Duplicate.{is_duplicate}
use open_scanner.Ingest.Upload.{
  Env, Server, Response, Meta, Step, halts, goes, Body, error, message, text, imported,
}
use open_scanner.Ingest.Upload.Resolve.{
  made_system, found_system, resolve_system, group_of, tag_of_label, given, keep_or, missing_group,
  backfill, written, made_talkgroup, new_talkgroup, found_talkgroup, resolve_talkgroup,
  needs_backfill, window_ms_of, is_known_duplicate, is_rejected_duplicate,
}
use open_scanner.Ingest.UploadV1.{
  retry_after, system_of, call_of, ResponseV1, write_api_error, status_text, imported_v1,
}
use open_scanner.Ingest.UploadV1.Rows.{
  StepV1, halts_v1, goes_v1, made_system_v1, found_system_v1, resolve_system_v1, labelled_group,
  labelled_tag, valid_text, made_talkgroup_v1, new_talkgroup_v1, filled_text, filled_group,
  filled_tag, written_v1, backfill_v1, found_talkgroup_v1, resolve_talkgroup_v1, window_v1,
  says_duplicate, is_rejected_v1,
}

-- The answer of the legacy handler in the terms of the native one: a system or a talkgroup that is
-- not configured is 422, a duplicate 409, and an error is put into the envelope with its code.
abbrev pub translated_error : Meta → ℕ → String → ResponseV1
translated_error meta status what =
    if str_eq what "system not found"
    then write_api_error 422 "system_not_found"
        "system is not configured and autoPopulateSystems is disabled"
        (some (system_of meta.system_raw))
    else if str_eq what "talkgroup not found"
    then write_api_error 422 "talkgroup_not_found" "talkgroup is not configured for this system"
        (some (call_of meta.system_raw meta.talkgroup_raw))
    else if str_eq what "rate limit exceeded"
    then write_api_error status "rate_limited" what (some (retry_after 60))
    else write_api_error status "internal_error" what none

abbrev pub translated_body : Meta → ℕ → Body → ResponseV1
translated_body meta status (error what) = translated_error meta status what
translated_body meta status (imported id) = record { status = status; body = imported_v1 id }
translated_body meta status (text what) = record { status = status; body = status_text what }
translated_body meta status (message what) =
    if str_eq what "duplicate call rejected"
    then write_api_error 409 "duplicate_call"
        "a call with the same system, talkgroup, and startedAt already exists"
        (some (call_of meta.system_raw meta.talkgroup_raw))
    else record { status = status; body = status_text what }

abbrev pub translated : Meta → Response → ResponseV1
translated meta r = translated_body meta r.status r.body

abbrev pub as_v1 {ℓ} : {A : Type ℓ} → Meta → Step A → StepV1 A
as_v1 meta (halts s r) = halts_v1 s (translated meta r)
as_v1 meta (goes s a) = goes_v1 s a

label_choice :
    (b : Bool) (given other : String)
    → (if not b then given else other) ≡ (if b then other else given)
label_choice true given other = refl
label_choice false given other = refl

made_system-same :
    (env : Env) (s : Server) (meta : Meta) (o : Option (Db × System))
    → made_system_v1 env s o ≡ as_v1 meta (made_system env s o)
made_system-same env s meta none = refl
made_system-same env s meta (some (db, system)) = refl

found_system-same :
    (env : Env) (s : Server) (meta : Meta) (o : Lookup System)
    → found_system_v1 env s meta o ≡ as_v1 meta (found_system env s meta o)
found_system-same env s meta (found system) = refl
found_system-same env s meta failed = refl
found_system-same env s meta no_rows =
    elim (Bool-cases (str_eq (get_setting_value env.fails s.db "autoPopulateSystems") "true")) [
      | inr e ↦ rw e refl
      | inl e ↦ rw e (
          rw
            (label_choice (str_eq meta.system_label "") meta.system_label
              (env.format_int meta.system_raw))
            (made_system-same env s meta _))
    ]

pub resolve_system-same :
    (env : Env) (s : Server) (meta : Meta)
    → resolve_system_v1 env s meta ≡ as_v1 meta (resolve_system env s meta)
unfolding resolve_system resolve_system_v1
resolve_system-same env s meta =
    found_system-same env s meta (get_system_by_system_id env.fails s.db meta.system_raw)

valid_text-same : (v : String) → valid_text v ≡ given v
valid_text-same v = elim (Bool-cases (str_eq v "")) [ inl e ↦ rw e refl | inr e ↦ rw e refl ]

labelled_group-same :
    (env : Env) (db : Db) (label : String)
    → labelled_group env db label ≡ group_of env.fails db (given label)
labelled_group-same env db label = elim (Bool-cases (str_eq label "")) [
  | inl e ↦ rw e refl
  | inr e ↦ rw e refl
]

labelled_tag-same :
    (env : Env) (db : Db) (label : String)
    → labelled_tag env db label ≡ tag_of_label env.fails db (given label)
labelled_tag-same env db label = elim (Bool-cases (str_eq label "")) [
  | inl e ↦ rw e refl
  | inr e ↦ rw e refl
]

filled_text-same : (o : Option String) (v : String) → filled_text o v ≡ keep_or o (given v)
filled_text-same none v = valid_text-same v
filled_text-same (some old) v = refl

filled_group-same :
    (env : Env) (db : Db) (o : Option ℕ) (label : String)
    → filled_group env db o label ≡ (
      (group_of env.fails db (missing_group o label)).0,
      keep_or o (group_of env.fails db (missing_group o label)).1,
    )
filled_group-same env db none label = labelled_group-same env db label
filled_group-same env db (some old) label = refl

filled_tag-same :
    (env : Env) (db : Db) (o : Option ℕ) (label : String)
    → filled_tag env db o label ≡ (
      (tag_of_label env.fails db (missing_group o label)).0,
      keep_or o (tag_of_label env.fails db (missing_group o label)).1,
    )
filled_tag-same env db none label = labelled_tag-same env db label
filled_tag-same env db (some old) label = refl

written-same :
    (env : Env) (s : Server) (meta : Meta) (db : Db) (t : Talkgroup) (o : Option Db)
    → written_v1 env s db t o ≡ as_v1 meta (written env s db t o)
written-same env s meta db t none = refl
written-same env s meta db t (some db') = refl

made_talkgroup-same :
    (env : Env) (s : Server) (meta : Meta) (db : Db) (o : Option (Db × Talkgroup))
    → made_talkgroup_v1 env s db o ≡ as_v1 meta (made_talkgroup env s db o)
made_talkgroup-same env s meta db none = refl
made_talkgroup-same env s meta db (some (db', t)) = refl

-- A new row from its parts.
module _ (env : Env) (s : Server) (meta : Meta) (system : System) where
  abbrev tagged : Option ℕ → Option String → Option String → Db × Option ℕ → StepV1 Talkgroup
  tagged group label name (db2, tag) =
      made_talkgroup_v1 env s db2
        (create_talkgroup env.fails db2 system.id meta.talkgroup_raw label name group tag)

  abbrev grouped : Option String → Option String → Db × Option ℕ → StepV1 Talkgroup
  grouped label name (db1, group) =
      tagged group label name (labelled_tag env db1 meta.talkgroup_tag)

  new_talkgroup-same :
      new_talkgroup_v1 env s meta system ≡ as_v1 meta (new_talkgroup env s meta system)
  unfolding new_talkgroup new_talkgroup_v1
  new_talkgroup-same =
      let g = group_of env.fails s.db (given meta.talkgroup_group) in
      ap (grouped (valid_text meta.talkgroup_label) (valid_text meta.talkgroup_name))
        (labelled_group-same env s.db meta.talkgroup_group)
      ∙ ap (tagged g.1 (valid_text meta.talkgroup_label) (valid_text meta.talkgroup_name))
          (labelled_tag-same env g.0 meta.talkgroup_tag)
      ∙ ap
          (λ l.
            tagged g.1 l (valid_text meta.talkgroup_name)
              (tag_of_label env.fails g.0 (given meta.talkgroup_tag)))
          (valid_text-same meta.talkgroup_label)
      ∙ ap
          (λ l.
            tagged g.1 (given meta.talkgroup_label) l
              (tag_of_label env.fails g.0 (given meta.talkgroup_tag)))
          (valid_text-same meta.talkgroup_name)
      ∙ made_talkgroup-same env s meta _ _

-- A row that is filled from its parts.
module _ (env : Env) (s : Server) (meta : Meta) (t : Talkgroup) where
  abbrev filled_with : Option ℕ → Option String → Option String → Db × Option ℕ → StepV1 Talkgroup
  filled_with group label name (db2, tag) =
      let filled : Talkgroup = record t {
        label = label;
        name = name;
        group_id = group;
        tag_id = tag;
      } in
      written_v1 env s db2 filled (update_talkgroup env.fails db2 filled)

  abbrev filled_behind : Option String → Option String → Db × Option ℕ → StepV1 Talkgroup
  filled_behind label name (db1, group) =
      filled_with group label name (filled_tag env db1 t.tag_id meta.talkgroup_tag)

  backfill-same : backfill_v1 env s meta t ≡ as_v1 meta (backfill env s meta t)
  unfolding backfill backfill_v1
  backfill-same =
      let label = filled_text t.label meta.talkgroup_label in
      let name = filled_text t.name meta.talkgroup_name in
      let db1 = (group_of env.fails s.db (missing_group t.group_id meta.talkgroup_group)).0 in
      let group =
        keep_or t.group_id
          (group_of env.fails s.db (missing_group t.group_id meta.talkgroup_group)).1 in
      let q = tag_of_label env.fails db1 (missing_group t.tag_id meta.talkgroup_tag) in
      let last : Db × Option ℕ = (q.0, keep_or t.tag_id q.1) in
      ap (filled_behind label name) (filled_group-same env s.db t.group_id meta.talkgroup_group)
      ∙ ap (filled_with group label name) (filled_tag-same env db1 t.tag_id meta.talkgroup_tag)
      ∙ ap (λ l. filled_with group l name last) (filled_text-same t.label meta.talkgroup_label)
      ∙ ap (λ l. filled_with group (keep_or t.label (given meta.talkgroup_label)) l last)
          (filled_text-same t.name meta.talkgroup_name)
      ∙ written-same env s meta _ _ _

found_talkgroup-same :
    (env : Env) (s : Server) (meta : Meta) (system : System) (o : Lookup Talkgroup)
    → found_talkgroup_v1 env s meta system o ≡ as_v1 meta (found_talkgroup env s meta system o)
found_talkgroup-same env s meta system failed = refl
found_talkgroup-same env s meta system (found t) = elim (Bool-cases (needs_backfill t meta)) [
  | inl e ↦ rw e (backfill-same env s meta t)
  | inr e ↦ rw e refl
]
found_talkgroup-same env s meta system no_rows =
    elim (Bool-cases (system.auto_populate_talkgroups == 0)) [
      | inl e ↦ rw e refl
      | inr e ↦ rw e (new_talkgroup-same env s meta system)
    ]

pub resolve_talkgroup-same :
    (env : Env) (s : Server) (meta : Meta) (system : System)
    → resolve_talkgroup_v1 env s meta system ≡ as_v1 meta (resolve_talkgroup env s meta system)
unfolding resolve_talkgroup resolve_talkgroup_v1
resolve_talkgroup-same env s meta system =
    found_talkgroup-same env s meta system
      (get_talkgroup env.fails s.db system.id meta.talkgroup_raw)

window-same : (env : Env) (v : String) → window_v1 env v ≡ window_ms_of env v
window-same env v = elim (Bool-cases (str_eq v "")) [
  | inl e ↦ rw e refl
  | inr e ↦ elim (Option-cases (env.parse_int v)) [
    | inl p ↦ rw (e, p) refl
    | inr (n, p) ↦ rw (e, p) refl
  ]
]

says_duplicate-same : (o : Option Bool) → says_duplicate o ≡ is_known_duplicate o
says_duplicate-same none = refl
says_duplicate-same (some b) = refl

pub is_rejected-same :
    (env : Env) (db : Db) (meta : Meta) (system : System) (t : Talkgroup)
    → is_rejected_v1 env db meta system t ≡ is_rejected_duplicate env db meta system t
unfolding is_rejected_v1 is_rejected_duplicate
is_rejected-same env db meta system t =
    elim (Bool-cases (str_eq (get_setting_value env.fails db "disableDuplicateDetection") "true")) [
      | inl e ↦ rw e refl
      | inr e ↦ rw e (
          says_duplicate-same (
            is_duplicate env.fails db system.id t.id meta.date_time
              (window_v1 env (get_setting_value env.fails db "duplicateDetectionTimeFrame")))
          ∙ ap (λ w. is_known_duplicate (is_duplicate env.fails db system.id t.id meta.date_time w))
              (window-same env (get_setting_value env.fails db "duplicateDetectionTimeFrame")))
    ]
