-- ===== src/Downstream/Received.antt =====
-- A pushed call at the server that it is pushed to, from the form to the stored row.
use open_scanner.Base.{
  ℕ, ◌≡◌, refl, ap, ◌∙◌, sym, subst, true, false, none, some, String, Bool-cases, inl, inr, ℤ,
  str_eq,
}
use open_scanner.Ingest.Tables.{
  System, Talkgroup, found, get_system_by_system_id, get_talkgroup, get_setting_value,
  q_create_call,
}
use open_scanner.Ingest.Rows.{create_call}
use open_scanner.Ingest.Sources.{is_blacklisted_tg}
use open_scanner.Ingest.Limiter.{allow_key}
use open_scanner.Ingest.Duplicate.{is_duplicate}
use open_scanner.Ingest.Upload.{Env, Form, Server, Meta, CallEvent, goes}
use open_scanner.Ingest.Upload.Parse.{parsed, parse_form, rate_limit_of}
use open_scanner.Ingest.Upload.Resolve.{
  resolve_system, resolve_talkgroup, needs_backfill, window_ms_of, is_rejected_duplicate,
}
use open_scanner.Ingest.Upload.Finish.{store_audio_of, ingest, with_key, post_call_upload, call_row}
use open_scanner.Ingest.Upload.Quiet.{same}
use open_scanner.Ingest.Upload.Stored.{IsStored, IsStored-Same, announce-IsStored, call_row-IsRowOf}
use open_scanner.Downstream.Fields.{push_fields}
use open_scanner.Downstream.Arrival.{first_value, Reads, Arrives, push_fields-read}

-- The receiver takes calls of the event's system and talkgroup: the key is in its rate, both rows are
-- there and complete, the talkgroup is not blacklisted, the call is no duplicate, and the audio store
-- and the insertion work.
pub record Receives (env : Env) (s : Server) (form : Form) (e : CallEvent) (key : ℕ) (sys : System)
    (t : Talkgroup) (path : String) : Type 0 where
  pub key_sent : form.api_key_id ≡ some key
  pub in_rate : (allow_key s.limiters key (rate_limit_of env s.db form) env.now).1 ≡ true
  pub known_system : get_system_by_system_id env.fails s.db e.system_id ≡ found sys
  pub listed : is_blacklisted_tg env.json sys.blacklists_json e.talkgroup_id ≡ false
  pub known_talkgroup : get_talkgroup env.fails s.db sys.id e.talkgroup_id ≡ found t
  pub complete : (m : Meta) → needs_backfill t m ≡ false
  pub new_call :
      is_duplicate env.fails s.db sys.id t.id e.date_time
        (window_ms_of env (get_setting_value env.fails s.db "duplicateDetectionTimeFrame"))
      ≡ some false
  pub stores : (mode : ℤ) (preset : String) → env.store_audio mode preset ≡ some path
  pub inserts : env.fails q_create_call ≡ false

module _ (env : Env) (s : Server) (form : Form) (e : CallEvent) (m : Meta) (key : ℕ) (sys : System)
    (t : Talkgroup) (path content_type : String) (r : Receives env s form e key sys t path)
    (attached : form.audio ≡ some content_type) (read : parse_form env form ≡ parsed m)
    (arrives : Arrives env e m) where
  -- With the count of the limiter.
  abbrev counted : Server
  counted = record s {
    limiters = (allow_key s.limiters key (rate_limit_of env s.db form) env.now).0;
  }

  goes_system : resolve_system env counted m ≡ goes counted sys
  unfolding resolve_system
  goes_system = rw (arrives.system, r.known_system) refl

  goes_talkgroup : resolve_talkgroup env counted m sys ≡ goes counted t
  unfolding resolve_talkgroup
  goes_talkgroup = rw (arrives.talkgroup, r.known_talkgroup, r.complete m) refl

  passes : is_rejected_duplicate env counted.db m sys t ≡ false
  unfolding is_rejected_duplicate
  passes =
      rw (arrives.date_time, r.new_call)
        (elim (Bool-cases
          (str_eq (get_setting_value env.fails s.db "disableDuplicateDetection") "true")) [
            | inl off ↦ rw off refl
            | inr on ↦ rw on refl
          ])

  store_audio_of-IsStored :
      IsStored env counted (store_audio_of env counted m sys t (some content_type)) m sys t
  unfolding create_call
  store_audio_of-IsStored =
      rw (r.stores _ _, r.inserts)
        (announce-IsStored env counted m (call_row env m sys t path _) sys t
          (call_row-IsRowOf env m sys t path _))

  not_blacklisted : is_blacklisted_tg env.json sys.blacklists_json m.talkgroup_raw ≡ false
  not_blacklisted =
      ap (λ raw. is_blacklisted_tg env.json sys.blacklists_json raw) arrives.talkgroup ∙ r.listed

  ingest-IsStored : IsStored env counted (ingest env counted form m) m sys t
  unfolding ingest
  ingest-IsStored =
      rw (goes_system, not_blacklisted, goes_talkgroup, passes)
        (subst (λ o. IsStored env counted (store_audio_of env counted m sys t o) m sys t)
          (sym attached) store_audio_of-IsStored)

  post_call_upload-IsStored : IsStored env s (post_call_upload env s form) m sys t
  unfolding post_call_upload
  post_call_upload-IsStored =
      subst (λ k. IsStored env s (with_key env s form k) m sys t) (sym r.key_sent)
        (rw (r.in_rate, read) (IsStored-Same env s counted _ m sys t (same s) ingest-IsStored))

-- A pushed call arrives. Let a form have the values that `pushCall` writes for an event and an audio
-- file, and let the receiver read the numbers that the sender writes and none from an empty text. If
-- the receiver's server takes calls of the event's radio ids (see Receives), then `PostCallUpload`
-- answers 200 and stores one row of that system and talkgroup, which it tells its own hub and
-- notifier, with the values it read; and these are the event's time, radio ids, frequency, duration,
-- source, talker alias, labels and JSON texts. A number that is 0 and a text that is "" arrive as
-- missing, and a missing source or alias is taken from the sources.
pub push_fields-arrive :
    (env : Env) (format : ℤ → String) (s : Server) (form : Form) (e : CallEvent)
    (content_type : String) (key : ℕ) (system : System) (t : Talkgroup) (path : String)
    → Reads env format e
    → env.parse_int "" ≡ none
    → ((key : String) → form.field key ≡ first_value (push_fields format e) key)
    → form.audio ≡ some content_type
    → Receives env s form e key system t path
    → (m : Meta) × Arrives env e m × IsStored env s (post_call_upload env s form) m system t
push_fields-arrive env format s form e content_type key system t path reads no_empty arrived
      attached receives =
    let (m, read, arrives) =
      push_fields-read env format form e content_type reads no_empty arrived attached in
    (
      m,
      arrives,
      post_call_upload-IsStored env s form e m key system t path content_type receives attached read
          arrives,
    )
