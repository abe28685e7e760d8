-- ===== src/Ingest/Upload/Quiet.antt =====
-- What the middle part of `PostCallUpload` leaves alone while it finds or makes rows.
use open_scanner.Base.{
  ℕ, ◌≡◌, refl, ap, ◌∙◌, Bool, true, false, Option, none, some, String, List, [], ◌∷◌, ◌++◌, keep,
  arith, Bool-cases, ◌==◌, str_eq, inl, inr, ℤ,
}
use open_scanner.Ingest.Tables.{
  System, Talkgroup, LabelRow, Db, Faults, Lookup, found, no_rows, failed, get_setting_value,
  create_system, create_talkgroup, update_talkgroup, get_system_by_system_id, get_talkgroup,
  q_create_system, q_update_talkgroup, q_create_talkgroup,
}
use open_scanner.Ingest.Rows.{get_group_by_label, create_group, get_tag_by_label, create_tag}
use open_scanner.Ingest.Upload.{
  Env, Server, Meta, Step, halts, goes, HubCall, broadcast_cfg, broadcast_cal, Body, error, message,
  text, imported,
}
use open_scanner.Ingest.Upload.Resolve.{
  resolved_group, resolved_tag, resolve_group_id, resolve_tag_id, told, made_system, found_system,
  resolve_system, group_of, tag_of_label, backfill, written, made_talkgroup, new_talkgroup,
  found_talkgroup, resolve_talkgroup, needs_backfill,
}

abbrev pub is_cal : HubCall → Bool
is_cal broadcast_cfg = false
is_cal (broadcast_cal payload system talkgroup) = true

abbrev pub is_import : Body → Bool
is_import (imported id) = true
is_import (error what) = false
is_import (message what) = false
is_import (text what) = false

-- The same calls and settings.
abbrev pub Kept : Db → Db → Type 0
Kept db db' = (db'.calls ≡ db.calls) × (db'.settings ≡ db.settings)

-- The two states have the same calls, settings, recordings, downstream events, transcription jobs and live
-- calls.
abbrev pub Same : Server → Server → Type 0
Same s s' =
    Kept s.db s'.db
    × (s'.recordings ≡ s.recordings)
    × (s'.downstream ≡ s.downstream)
    × (s'.jobs ≡ s.jobs)
    × (keep is_cal s'.hub ≡ keep is_cal s.hub)

keep-append_cfg : (hub : List HubCall) → keep is_cal (hub ++ (broadcast_cfg ∷ [])) ≡ keep is_cal hub
keep-append_cfg [] = refl
keep-append_cfg (broadcast_cfg ∷ hub) = keep-append_cfg hub
keep-append_cfg (broadcast_cal payload system talkgroup ∷ hub) =
    ap (λ t. broadcast_cal payload system talkgroup ∷ t) (keep-append_cfg hub)

-- A step leaves all that alone, and an answer that it gives is not an import.
abbrev pub Quiet {ℓ} : {A : Type ℓ} → Server → Step A → Type 0
Quiet s (halts s' r) = Same s s' × (is_import r.body ≡ false)
Quiet s (goes s' a) = Same s s'

told-Same :
    (env : Env) (s : Server) (db : Db)
    → Kept s.db db
    → Same s (told env (record s { db = db }) broadcast_cfg)
told-Same env s db e = elim (Bool-cases env.has_hub) [
  | inl hub ↦ rw hub (e, refl, refl, refl, keep-append_cfg s.hub)
  | inr alone ↦ rw alone (e, refl, refl, refl, refl)
]

pub same : (s : Server) → Same s s
same s = ((refl, refl), refl, refl, refl, refl)

pub Same-trans : (s t u : Server) → Same s t → Same t u → Same s u
Same-trans s t u ((a, f), b, c, d, e) ((a', f'), b', c', d', e') =
    ((a' ∙ a, f' ∙ f), b' ∙ b, c' ∙ c, d' ∙ d, e' ∙ e)

made_system-Quiet :
    (env : Env) (s : Server) (raw : ℤ) (label : String)
    → Quiet s (made_system env s (create_system env.fails s.db raw label))
unfolding create_system
made_system-Quiet env s raw label = elim (Bool-cases (env.fails q_create_system)) [
  | inl e ↦ rw e (same s, refl)
  | inr e ↦ rw e (told-Same env s _ (refl, refl))
]

found_system-Quiet :
    (env : Env) (s : Server) (meta : Meta) (o : Lookup System) → Quiet s (found_system env s meta o)
found_system-Quiet env s meta (found system) = same s
found_system-Quiet env s meta failed = (same s, refl)
found_system-Quiet env s meta no_rows =
    elim (Bool-cases (str_eq (get_setting_value env.fails s.db "autoPopulateSystems") "true")) [
      | inl e ↦ rw e (made_system-Quiet env s meta.system_raw _)
      | inr e ↦ rw e (same s, refl)
    ]

pub resolve_system-Quiet :
    (env : Env) (s : Server) (meta : Meta) → Quiet s (resolve_system env s meta)
unfolding resolve_system
resolve_system-Quiet env s meta =
    found_system-Quiet env s meta (get_system_by_system_id env.fails s.db meta.system_raw)

resolve_group_id-Kept :
    (fails : Faults) (db : Db) (label : String) → Kept db (resolve_group_id fails db label).0
unfolding resolve_group_id create_group
resolve_group_id-Kept fails db label = go (get_group_by_label fails db label)
  where
    go : (o : Lookup LabelRow) → Kept db (resolved_group fails db label o).0
    go (found g) = (refl, refl)
    go failed = (refl, refl)
    go no_rows = (ground arith, ground arith)

resolve_tag_id-Kept :
    (fails : Faults) (db : Db) (label : String) → Kept db (resolve_tag_id fails db label).0
unfolding resolve_tag_id create_tag
resolve_tag_id-Kept fails db label = go (get_tag_by_label fails db label)
  where
    go : (o : Lookup LabelRow) → Kept db (resolved_tag fails db label o).0
    go (found g) = (refl, refl)
    go failed = (refl, refl)
    go no_rows = (ground arith, ground arith)

-- Both labels of an upload.
labels-Kept :
    (fails : Faults) (db : Db) (group tag : Option String)
    → Kept db (tag_of_label fails (group_of fails db group).0 tag).0
labels-Kept fails db none none = (refl, refl)
labels-Kept fails db none (some tag) = resolve_tag_id-Kept fails db tag
labels-Kept fails db (some group) none = resolve_group_id-Kept fails db group
labels-Kept fails db (some group) (some tag) =
    let (a, b) = resolve_tag_id-Kept fails (resolve_group_id fails db group).0 tag in
    let (a', b') = resolve_group_id-Kept fails db group in (a ∙ a', b ∙ b')

written-Quiet :
    (env : Env) (s : Server) (db : Db) (t : Talkgroup)
    → Kept s.db db
    → Quiet s (written env s db t (update_talkgroup env.fails db t))
unfolding update_talkgroup
written-Quiet env s db t e = elim (Bool-cases (env.fails q_update_talkgroup)) [
  | inl f ↦ rw f (e, refl, refl, refl, refl)
  | inr f ↦ rw f (told-Same env s _ e)
]

backfill-Quiet :
    (env : Env) (s : Server) (meta : Meta) (t : Talkgroup) → Quiet s (backfill env s meta t)
unfolding backfill
backfill-Quiet env s meta t = written-Quiet env s _ _ (labels-Kept env.fails s.db _ _)

made_talkgroup-Quiet :
    (env : Env) (s : Server) (db : Db) (system : ℕ) (raw : ℤ) (label name : Option String)
    (group tag : Option ℕ)
    → Kept s.db db
    → Quiet s
        (made_talkgroup env s db (create_talkgroup env.fails db system raw label name group tag))
unfolding create_talkgroup
made_talkgroup-Quiet env s db system raw label name group tag e =
    elim (Bool-cases (env.fails q_create_talkgroup)) [
      | inl f ↦ rw f ((e, refl, refl, refl, refl), refl)
      | inr f ↦ rw f (told-Same env s _ e)
    ]

new_talkgroup-Quiet :
    (env : Env) (s : Server) (meta : Meta) (system : System)
    → Quiet s (new_talkgroup env s meta system)
unfolding new_talkgroup
new_talkgroup-Quiet env s meta system =
    made_talkgroup-Quiet env s _ system.id meta.talkgroup_raw _ _ _ _
      (labels-Kept env.fails s.db _ _)

found_talkgroup-Quiet :
    (env : Env) (s : Server) (meta : Meta) (system : System) (o : Lookup Talkgroup)
    → Quiet s (found_talkgroup env s meta system o)
found_talkgroup-Quiet env s meta system (found t) = elim (Bool-cases (needs_backfill t meta)) [
  | inl e ↦ rw e (backfill-Quiet env s meta t)
  | inr e ↦ rw e (same s)
]
found_talkgroup-Quiet env s meta system failed = (same s, refl)
found_talkgroup-Quiet env s meta system no_rows =
    elim (Bool-cases (system.auto_populate_talkgroups == 0)) [
      | inl e ↦ rw e (same s, refl)
      | inr e ↦ rw e (new_talkgroup-Quiet env s meta system)
    ]

pub resolve_talkgroup-Quiet :
    (env : Env) (s : Server) (meta : Meta) (system : System)
    → Quiet s (resolve_talkgroup env s meta system)
unfolding resolve_talkgroup
resolve_talkgroup-Quiet env s meta system =
    found_talkgroup-Quiet env s meta system
      (get_talkgroup env.fails s.db system.id meta.talkgroup_raw)
