-- ===== src/Ingest/Upload/Stored.antt =====
-- What the last part of `PostCallUpload` stores and tells: see Imported.
use open_scanner.Base.{
  ℕ, suc, ◌≡◌, refl, sym, subst, ap, ◌∙◌, inl, inr, ◌&&◌, some, String, [], ◌∷◌, ◌++◌, keep,
  if◌then◌else◌, Bool-cases, append-nil,
}
use open_scanner.Ingest.Tables.{System, Talkgroup, Call, Db}
use open_scanner.Ingest.Upload.{
  Env, Server, Response, Meta, HubCall, CalPayload, CallEvent, broadcast_cal, imported,
}
use open_scanner.Ingest.Upload.Resolve.{told}
use open_scanner.Ingest.Upload.Finish.{cal_payload, call_event, call_row, upsert_units, announce}
use open_scanner.Ingest.Upload.Imported.{IsRowOf, IsPayloadOf, IsEventOf}
use open_scanner.Ingest.Upload.Quiet.{is_cal, Same}
use open_scanner.Ingest.Upload.Units.{upsert_units-calls, keep-append_cal}

-- One row of what was sent is added, its audio file stored, and everyone is told this row.
pub record IsStored (env : Env) (s : Server) (r : Server × Response) (meta : Meta) (system : System)
    (t : Talkgroup) : Type 0 where
  pub call : Call
  pub id : ℕ
  pub payload : CalPayload
  pub event : CallEvent
  pub answer : r.1 ≡ record { status = 200; body = imported id }
  pub calls : r.0.db.calls ≡ s.db.calls ++ (record call { id = id } ∷ [])
  pub row : IsRowOf env meta system t call
  pub recordings : r.0.recordings ≡ s.recordings ++ (call.audio_path ∷ [])
  pub told_payload : IsPayloadOf call id system t payload
  pub live :
      keep is_cal r.0.hub
      ≡ keep is_cal s.hub ++ (if env.has_hub then broadcast_cal payload system.id t.id ∷ [] else [])
  pub told_event : IsEventOf env r.0.db call id system t event
  pub downstream :
      r.0.downstream ≡ (if env.has_downstream then s.downstream ++ (event ∷ []) else s.downstream)
  pub jobs : r.0.jobs ≡ (
      if env.has_transcriber && env.takes_job
      then s.jobs ++ ((id, env.absolute call.audio_path) ∷ [])
      else s.jobs)

-- Whether or not there is a hub.
told_cal-live :
    (env : Env) (s : Server) (p : CalPayload) (system t : ℕ)
    → keep is_cal (told env s (broadcast_cal p system t)).hub
      ≡ keep is_cal s.hub ++ (if env.has_hub then broadcast_cal p system t ∷ [] else [])
told_cal-live env s p system t = elim (Bool-cases env.has_hub) [
  | inl e ↦ rw e (keep-append_cal s.hub p system t)
  | inr e ↦ rw e (sym (append-nil (keep is_cal s.hub)))
]

told-fields :
    (env : Env) (s : Server) (call : HubCall)
    → ((told env s call).db ≡ s.db)
      × ((told env s call).recordings ≡ s.recordings)
      × ((told env s call).downstream ≡ s.downstream)
      × ((told env s call).jobs ≡ s.jobs)
told-fields env s call = elim (Bool-cases env.has_hub) [
  | inl e ↦ rw e (refl, refl, refl, refl)
  | inr e ↦ rw e (refl, refl, refl, refl)
]

payload-IsPayloadOf :
    (c : Call) (id : ℕ) (system : System) (t : Talkgroup)
    → IsPayloadOf c id system t (cal_payload c id system t)
payload-IsPayloadOf c id system t = record {
  call_id = refl;
  audio_name = refl;
  audio_type = refl;
  date_time = refl;
  system_id = refl;
  in_system = refl;
  talkgroup_id = refl;
  in_talkgroup = refl;
  frequency = refl;
  duration = refl;
  source = refl;
  site = refl;
  channel = refl;
  decoder = refl;
  error_count = refl;
  spike_count = refl;
  talker_alias = refl;
  sources = refl;
  frequencies = refl;
}

event-IsEventOf :
    (env : Env) (db : Db) (c : Call) (id : ℕ) (system : System) (t : Talkgroup)
    → IsEventOf env db c id system t (call_event env db c id system t)
event-IsEventOf env db c id system t = record {
  call_id = refl;
  audio_path = refl;
  audio_name = refl;
  audio_type = refl;
  date_time = refl;
  system_id = refl;
  in_system = refl;
  talkgroup_id = refl;
  in_talkgroup = refl;
  frequency = refl;
  duration = refl;
  source = refl;
  sources = refl;
  frequencies = refl;
  patches = refl;
  system_label = refl;
  talkgroup_label = refl;
  talkgroup_name = refl;
  talkgroup_group = refl;
  talkgroup_tag = refl;
  talker_alias = refl;
}

pub call_row-IsRowOf :
    (env : Env) (meta : Meta) (system : System) (t : Talkgroup) (path audio_type : String)
    → IsRowOf env meta system t (call_row env meta system t path audio_type)
call_row-IsRowOf env meta system t path audio_type = record {
  audio_name = refl;
  date_time = refl;
  frequency = refl;
  duration = refl;
  source = refl;
  sources = refl;
  frequencies = refl;
  patches = refl;
  in_system = refl;
  in_talkgroup = refl;
  site = refl;
  channel = refl;
  decoder = refl;
  error_count = refl;
  spike_count = refl;
  talker_alias = refl;
}

-- The row that `CreateCall` inserts.
abbrev pub made : Server → Call → Db
made s c = record s.db {
  calls = s.db.calls ++ (record c { id = s.db.next_id } ∷ []);
  next_id = suc s.db.next_id;
}

-- Behind the inserted row.
pub announce-IsStored :
    (env : Env) (s : Server) (meta : Meta) (c : Call) (system : System) (t : Talkgroup)
    → IsRowOf env meta system t c
    → let s' = record s { recordings = s.recordings ++ (c.audio_path ∷ []) } in
      IsStored env s (announce env s' c system t (some (made s c, s.db.next_id))) meta system t
unfolding upsert_units
announce-IsStored env s meta c system t row =
    let id = s.db.next_id in
    let db' = upsert_units env (made s c) system.id c in
    let behind : Server = record s { recordings = s.recordings ++ (c.audio_path ∷ []); db = db' } in
    let p = cal_payload c id system t in
    let ev = call_event env db' c id system t in
    let (same_db, same_recordings, same_downstream, same_jobs) =
      told-fields env behind (broadcast_cal p system.id t.id) in
    record {
      call = c;
      id = id;
      payload = p;
      event = ev;
      answer = refl;
      calls = ap (λ d. d.calls) same_db ∙ upsert_units-calls env (made s c) system.id c;
      row = row;
      recordings = same_recordings;
      told_payload = payload-IsPayloadOf c id system t;
      live = told_cal-live env behind p system.id t.id;
      told_event =
          subst (λ d. IsEventOf env d c id system t ev) (sym same_db)
            (event-IsEventOf env db' c id system t);
      downstream = ap (λ l. if env.has_downstream then l ++ (ev ∷ []) else l) same_downstream;
      jobs =
          ap
            (λ l.
              if env.has_transcriber && env.takes_job
              then l ++ ((id, env.absolute c.audio_path) ∷ [])
              else l)
            same_jobs;
    }

-- What is stored behind the state that the rows were found in is stored behind the one before.
pub IsStored-Same :
    (env : Env) (s s' : Server) (r : Server × Response) (meta : Meta) (system : System)
    (t : Talkgroup)
    → Same s s'
    → IsStored env s' r meta system t
    → IsStored env s r meta system t
IsStored-Same env s s' r meta system t ((calls, settings), recordings, downstream, jobs, live) o =
    record {
      call = o.call;
      id = o.id;
      payload = o.payload;
      event = o.event;
      answer = o.answer;
      calls = o.calls ∙ ap (λ l. l ++ (record o.call { id = o.id } ∷ [])) calls;
      row = o.row;
      recordings = o.recordings ∙ ap (λ l. l ++ (o.call.audio_path ∷ [])) recordings;
      told_payload = o.told_payload;
      live =
          o.live
          ∙ ap (λ l. l ++ (if env.has_hub then broadcast_cal o.payload system.id t.id ∷ [] else []))
              live;
      told_event = o.told_event;
      downstream =
          o.downstream ∙ ap (λ l. if env.has_downstream then l ++ (o.event ∷ []) else l) downstream;
      jobs =
          o.jobs
          ∙ ap
              (λ l.
                if env.has_transcriber && env.takes_job
                then l ++ ((o.id, env.absolute o.call.audio_path) ∷ [])
                else l)
              jobs;
    }
