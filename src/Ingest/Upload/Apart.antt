-- ===== src/Ingest/Upload/Apart.antt =====
-- Uploads store no two calls of one talkgroup within the window of the duplicate check.
use open_scanner.Base.{
  ℕ, suc, ◌<◌, ◌≡◌, refl, inl, inr, Bool, true, false, Option, none, some, String, List, [], ◌∷◌,
  ◌++◌, Bool-cases, str_eq, ℤ, pos, All,
}
use open_scanner.Ingest.Tables.{
  System, Talkgroup, Call, Db, get_setting_value, q_at_timestamp, q_in_range, q_create_call,
}
use open_scanner.Ingest.Rows.{create_call}
use open_scanner.Ingest.Limiter.{allow_key}
use open_scanner.Ingest.Sources.{is_blacklisted_tg}
use open_scanner.Ingest.Duplicate.{window_sec}
use open_scanner.Ingest.Duplicate.Apart.{
  Apart, AreApart, IsWithin, AreApart-append, is_duplicate-Apart, is_duplicate-answers,
}
use open_scanner.Ingest.Upload.{Env, Form, Server, Meta, Step, halts, goes}
use open_scanner.Ingest.Upload.Parse.{Parsed, refused, parsed, parse_form, rate_limit_of}
use open_scanner.Ingest.Upload.Resolve.{
  resolve_system, resolve_talkgroup, is_known_duplicate, window_ms_of, is_rejected_duplicate,
}
use open_scanner.Ingest.Upload.Finish.{
  call_row, audio_type_of, upsert_units, announce, store_call, store_audio_of, with_talkgroup,
  with_system, ingest, with_form, with_key, post_call_upload,
}
use open_scanner.Ingest.Upload.Quiet.{Same, Quiet, resolve_system-Quiet, resolve_talkgroup-Quiet}
use open_scanner.Ingest.Upload.Units.{upsert_units-calls}

-- The check is on, with a window of `n` milliseconds, and its queries work.
pub record IsChecking (env : Env) (db : Db) (n : ℕ) : Type 0 where
  pub timestamp_works : env.fails q_at_timestamp ≡ false
  pub range_works : env.fails q_in_range ≡ false
  pub enabled : str_eq (get_setting_value env.fails db "disableDuplicateDetection") "true" ≡ false
  pub window :
      window_ms_of env (get_setting_value env.fails db "duplicateDetectionTimeFrame") ≡ pos n
  pub above : 0 < n

-- What the handler checks and what it keeps.
abbrev Good : Env → ℕ → Server → Type 0
Good env n s = IsChecking env s.db n × AreApart (window_sec n) s.db.calls

Good-Same : (env : Env) (n : ℕ) (s s' : Server) → Same s s' → Good env n s → Good env n s'
unfolding get_setting_value
Good-Same env n s s' ((calls, settings), r, d, j, l) (c, apart) = (
  record {
    timestamp_works = c.timestamp_works;
    range_works = c.range_works;
    enabled = rw settings c.enabled;
    window = rw settings c.window;
    above = c.above;
  },
  rw calls apart,
)

announce-AreApart :
    (env : Env) (w : ℕ) (s : Server) (recordings : List String) (c : Call) (system : System)
    (t : Talkgroup)
    → AreApart w s.db.calls
    → All (λ d. Apart w d c) s.db.calls
    → let s' = record s { recordings = recordings } in
      AreApart w (announce env s' c system t (create_call env.fails s.db c)).0.db.calls
unfolding create_call upsert_units
announce-AreApart env w s recordings c system t apart new =
    elim (Bool-cases (env.fails q_create_call)) [
      | inl e ↦ rw e apart
      | inr e ↦ rw e (elim (Bool-cases env.has_hub) [
        | inl hub ↦ rw (hub, upsert_units-calls env made system.id c) longer
        | inr alone ↦ rw (alone, upsert_units-calls env made system.id c) longer
      ])
    ]
  where
    made : Db
    made = record s.db {
      calls = s.db.calls ++ (record c { id = s.db.next_id } ∷ []);
      next_id = suc s.db.next_id;
    }

    longer : AreApart w (s.db.calls ++ (record c { id = s.db.next_id } ∷ []))
    longer = AreApart-append w s.db.calls (record c { id = s.db.next_id }) apart new

-- The check had an answer, and it was no.
refused_not :
    (o : Option Bool) (b : Bool) → o ≡ some b → is_known_duplicate o ≡ false → o ≡ some false
refused_not none b e k = cc
refused_not (some true) b e k = cc
refused_not (some false) b e k = refl

passed-Apart :
    (env : Env) (n : ℕ) (s : Server) (meta : Meta) (system : System) (t : Talkgroup)
    (path audio_type : String)
    → Good env n s
    → IsWithin (window_sec n) meta.date_time
    → is_rejected_duplicate env s.db meta system t ≡ false
    → All (λ d. Apart (window_sec n) d (call_row env meta system t path audio_type)) s.db.calls
unfolding is_rejected_duplicate
passed-Apart env n s meta system t path audio_type (check, apart) wide h =
    let (b, e) =
      is_duplicate-answers env.fails s.db system.id t.id meta.date_time n check.timestamp_works
        check.range_works check.above in
    is_duplicate-Apart env.fails s.db (call_row env meta system t path audio_type) n
      check.timestamp_works check.range_works check.above wide
      (refused_not _ b e (rw (check.enabled, check.window) at h))

store_call-AreApart :
    (env : Env) (n : ℕ) (s : Server) (meta : Meta) (system : System) (t : Talkgroup) (mode : ℤ)
    (preset content_type : String) (path : Option String)
    → Good env n s
    → IsWithin (window_sec n) meta.date_time
    → is_rejected_duplicate env s.db meta system t ≡ false
    → AreApart
        (window_sec n)
        (store_call env s meta system t mode preset content_type path).0.db.calls
store_call-AreApart env n s meta system t mode preset content_type none (check, apart) wide h =
    apart
store_call-AreApart env n s meta system t mode preset content_type (some path) (check, apart) wide
      h =
    announce-AreApart env (window_sec n) s (s.recordings ++ (path ∷ []))
      (call_row env meta system t path (audio_type_of mode preset content_type)) system t apart
      (passed-Apart env n s meta system t path (audio_type_of mode preset content_type)
        (check, apart) wide h)

store_audio_of-AreApart :
    (env : Env) (n : ℕ) (s : Server) (meta : Meta) (system : System) (t : Talkgroup)
    (audio : Option String)
    → Good env n s
    → IsWithin (window_sec n) meta.date_time
    → is_rejected_duplicate env s.db meta system t ≡ false
    → AreApart (window_sec n) (store_audio_of env s meta system t audio).0.db.calls
store_audio_of-AreApart env n s meta system t none (check, apart) wide h = apart
store_audio_of-AreApart env n s meta system t (some content_type) good wide h =
    store_call-AreApart env n s meta system t _ _ content_type _ good wide h

with_talkgroup-AreApart :
    (env : Env) (n : ℕ) (s : Server) (form : Form) (meta : Meta) (system : System)
    (step : Step Talkgroup)
    → Quiet s step
    → Good env n s
    → IsWithin (window_sec n) meta.date_time
    → AreApart (window_sec n) (with_talkgroup env form meta system step).0.db.calls
with_talkgroup-AreApart env n s form meta system (halts s' r) (q, e) good wide =
    (Good-Same env n s s' q good).1
with_talkgroup-AreApart env n s form meta system (goes s' t) q good wide =
    elim (Bool-cases (is_rejected_duplicate env s'.db meta system t)) [
      | inl e ↦ rw e (Good-Same env n s s' q good).1
      | inr e ↦ rw e (
          store_audio_of-AreApart env n s' meta system t form.audio (Good-Same env n s s' q good)
            wide e)
    ]

with_system-AreApart :
    (env : Env) (n : ℕ) (s : Server) (form : Form) (meta : Meta) (step : Step System)
    → Quiet s step
    → Good env n s
    → IsWithin (window_sec n) meta.date_time
    → AreApart (window_sec n) (with_system env form meta step).0.db.calls
with_system-AreApart env n s form meta (halts s' r) (q, e) good wide =
    (Good-Same env n s s' q good).1
with_system-AreApart env n s form meta (goes s' system) q good wide =
    elim (Bool-cases (is_blacklisted_tg env.json system.blacklists_json meta.talkgroup_raw)) [
      | inl e ↦ rw e (Good-Same env n s s' q good).1
      | inr e ↦ rw e (
          with_talkgroup-AreApart env n s' form meta system (resolve_talkgroup env s' meta system)
            (resolve_talkgroup-Quiet env s' meta system) (Good-Same env n s s' q good) wide)
    ]

-- The time that was read is not so near the ends of the 64-bit integers that its window wraps.
abbrev pub HasWidth : ℕ → Parsed → Type 0
HasWidth n (refused r) = Unit
HasWidth n (parsed meta) = IsWithin (window_sec n) meta.date_time

with_form-AreApart :
    (env : Env) (n : ℕ) (s : Server) (form : Form) (p : Parsed)
    → Good env n s
    → HasWidth n p
    → AreApart (window_sec n) (with_form env s form p).0.db.calls
unfolding ingest
with_form-AreApart env n s form (refused r) (check, apart) wide = apart
with_form-AreApart env n s form (parsed meta) good wide =
    with_system-AreApart env n s form meta (resolve_system env s meta)
      (resolve_system-Quiet env s meta) good wide

with_key-AreApart :
    (env : Env) (n : ℕ) (s : Server) (form : Form) (key : Option ℕ)
    → Good env n s
    → HasWidth n (parse_form env form)
    → AreApart (window_sec n) (with_key env s form key).0.db.calls
with_key-AreApart env n s form none (check, apart) wide = apart
with_key-AreApart env n s form (some key) good wide =
    elim (Bool-cases (allow_key s.limiters key (rate_limit_of env s.db form) env.now).1) [
      | inl e ↦ rw e (
          with_form-AreApart env n
            (record s {
              limiters = (allow_key s.limiters key (rate_limit_of env s.db form) env.now).0;
            })
            form (parse_form env form) good wide)
      | inr e ↦ rw e good.1
    ]

-- While the duplicate check is on, its window is above 0 and its two queries work, an upload whose
-- time is at least the window away from the ends of the 64-bit integers keeps the calls of one system
-- and talkgroup more than the window apart: if any two calls of the table with the same system and
-- talkgroup are further apart than the window (in whole seconds, one at least), so are any two after
-- the upload, whatever else it sends and whatever other queries fail.
pub post_call_upload-AreApart :
    (env : Env) (n : ℕ) (s : Server) (form : Form)
    → IsChecking env s.db n
    → HasWidth n (parse_form env form)
    → AreApart (window_sec n) s.db.calls
    → AreApart (window_sec n) (post_call_upload env s form).0.db.calls
unfolding post_call_upload
post_call_upload-AreApart env n s form check wide apart =
    with_key-AreApart env n s form form.api_key_id (check, apart) wide
