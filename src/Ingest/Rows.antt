-- ===== src/Ingest/Rows.antt =====
-- The further queries of an upload: groups, tags, units and calls of backend/internal/db.
use open_scanner.Base.{
  ℕ, suc, Bool, not, ◌&&◌, Option, none, some, String, List, [], ◌∷◌, ◌++◌, ◌==◌, str_eq,
  if◌then◌else◌, any, keep, take, ℤ, eq_ℤ, leb_ℤ, ltb_ℤ,
}
use open_scanner.Store.{find_first}
use open_scanner.Ingest.Tables.{
  LabelRow, RadioUnit, Call, Db, Faults, Lookup, lookup, q_group_by_label, q_create_group,
  q_get_group, q_tag_by_label, q_create_tag, q_get_tag, q_upsert_unit, q_at_timestamp, q_in_range,
  q_create_call, q_older, q_delete_call,
}

unfoldable pub get_group_by_label : Faults → Db → String → Lookup LabelRow
unfolding find_first
get_group_by_label fails db label =
    lookup (fails q_group_by_label) (find_first (λ g. str_eq g.label label) db.groups)

unfoldable pub create_group : Faults → Db → String → Option (Db × ℕ)
create_group fails db label =
    if fails q_create_group
    then none
    else some (
      record db {
        groups = db.groups ++ (record { id = db.next_id; label = label } ∷ []);
        next_id = suc db.next_id;
      },
      db.next_id,
    )

unfoldable pub get_group : Faults → Db → ℕ → Lookup LabelRow
unfolding find_first
get_group fails db id = lookup (fails q_get_group) (find_first (λ g. g.id == id) db.groups)

unfoldable pub get_tag_by_label : Faults → Db → String → Lookup LabelRow
unfolding find_first
get_tag_by_label fails db label =
    lookup (fails q_tag_by_label) (find_first (λ t. str_eq t.label label) db.tags)

unfoldable pub create_tag : Faults → Db → String → Option (Db × ℕ)
create_tag fails db label =
    if fails q_create_tag
    then none
    else some (
      record db {
        tags = db.tags ++ (record { id = db.next_id; label = label } ∷ []);
        next_id = suc db.next_id;
      },
      db.next_id,
    )

unfoldable pub get_tag : Faults → Db → ℕ → Lookup LabelRow
unfolding find_first
get_tag fails db id = lookup (fails q_get_tag) (find_first (λ t. t.id == id) db.tags)

-- ON CONFLICT (system_id, unit_id) DO UPDATE SET label = …; the label is never NULL here.
pub upsert_rows : RadioUnit → List RadioUnit → List RadioUnit
upsert_rows u [] = u ∷ []
upsert_rows u (v ∷ vs) =
    if (v.system_id == u.system_id) && eq_ℤ v.unit_id u.unit_id
    then record v { label = u.label } ∷ vs
    else v ∷ upsert_rows u vs

unfoldable pub upsert_unit : Faults → Db → RadioUnit → Db
unfolding upsert_rows
upsert_unit fails db u =
    if fails q_upsert_unit then db else record db { units = upsert_rows u db.units }

abbrev pub is_call_at : ℕ → ℕ → ℤ → Call → Bool
is_call_at system talkgroup t c =
    (c.system_id == system) && (c.talkgroup_id == talkgroup) && eq_ℤ c.date_time t

unfoldable pub has_call_at_timestamp : Faults → Db → ℕ → ℕ → ℤ → Option Bool
has_call_at_timestamp fails db system talkgroup t =
    if fails q_at_timestamp then none else some (any (is_call_at system talkgroup t) db.calls)

abbrev pub is_call_in : ℕ → ℕ → ℤ → ℤ → Call → Bool
is_call_in system talkgroup from to c =
    (c.system_id == system)
    && (c.talkgroup_id == talkgroup)
    && leb_ℤ from c.date_time
    && leb_ℤ c.date_time to

unfoldable pub has_call_in_time_range : Faults → Db → ℕ → ℕ → ℤ → ℤ → Option Bool
has_call_in_time_range fails db system talkgroup from to =
    if fails q_in_range then none else some (any (is_call_in system talkgroup from to) db.calls)

-- The row gets the next id; `none` is an error.
unfoldable pub create_call : Faults → Db → Call → Option (Db × ℕ)
create_call fails db c =
    if fails q_create_call
    then none
    else some (
      record db {
        calls = db.calls ++ (record c { id = db.next_id } ∷ []);
        next_id = suc db.next_id;
      },
      db.next_id,
    )

-- ORDER BY date_time ASC
unfoldable pub insert_by_date : Call → List Call → List Call
insert_by_date c [] = c ∷ []
insert_by_date c (d ∷ ds) =
    if ltb_ℤ d.date_time c.date_time then d ∷ insert_by_date c ds else c ∷ d ∷ ds

unfoldable pub sort_by_date : List Call → List Call
unfolding insert_by_date
sort_by_date [] = []
sort_by_date (c ∷ cs) = insert_by_date c (sort_by_date cs)

-- Older than the cut-off, with no bookmark and no shared link.
abbrev pub is_prunable : Db → ℤ → Call → Bool
is_prunable db cutoff c =
    ltb_ℤ c.date_time cutoff
    && not (any (λ b. b.call_id == c.id) db.bookmarks)
    && not (any (λ id. id == c.id) db.shared_links)

unfoldable pub get_call_ids_older_than : Faults → Db → ℕ → ℤ → Option (List Call)
unfolding sort_by_date
get_call_ids_older_than fails db round cutoff =
    if fails (q_older round)
    then none
    else some (take 500 (sort_by_date (keep (is_prunable db cutoff) db.calls)))

-- An error leaves the row.
unfoldable pub delete_call_batch : Faults → Db → ℕ → ℕ → Db
delete_call_batch fails db round id =
    if fails (q_delete_call round id)
    then db
    else record db { calls = keep (λ c. not (c.id == id)) db.calls }
