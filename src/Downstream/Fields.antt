-- ===== src/Downstream/Fields.antt =====
-- The form that `pushCall` of backend/internal/downstream/pusher.go writes.
use open_scanner.Base.{
  Option, none, some, String, List, [], ◌∷◌, if◌then◌else◌, str_eq, ℤ, pos, eq_ℤ,
}
use open_scanner.Ingest.Upload.{CallEvent}

-- `if n != 0 { … }` and `if v != "" { … }`: `none` is a field that is not written.
abbrev pub number_part : (ℤ → String) → ℤ → Option String
number_part format n = if eq_ℤ n (pos 0) then none else some (format n)

abbrev pub text_part : String → Option String
text_part v = if str_eq v "" then none else some v

-- The fields in the order of the code; the first three are always written.
abbrev pub form_parts : (ℤ → String) → CallEvent → List (String × Option String)
form_parts format e =
    ("systemId", some (format e.system_id))
    ∷ ("talkgroupId", some (format e.talkgroup_id))
    ∷ ("dateTime", some (format e.date_time))
    ∷ ("frequency", number_part format e.frequency)
    ∷ ("duration", number_part format e.duration)
    ∷ ("source", number_part format e.source)
    ∷ ("sources", text_part e.sources)
    ∷ ("frequencies", text_part e.frequencies)
    ∷ ("patches", text_part e.patches)
    ∷ ("audioName", text_part e.audio_name)
    ∷ ("audioType", text_part e.audio_type)
    ∷ ("systemLabel", text_part e.system_label)
    ∷ ("talkgroupLabel", text_part e.talkgroup_label)
    ∷ ("talkgroupName", text_part e.talkgroup_name)
    ∷ ("talkgroupGroup", text_part e.talkgroup_group)
    ∷ ("talkgroupTag", text_part e.talkgroup_tag)
    ∷ ("talkerAlias", text_part e.talker_alias)
    ∷ []

-- The fields that are written.
abbrev pub written_parts : List (String × Option String) → List (String × String)
written_parts [] = []
written_parts ((key, none) ∷ parts) = written_parts parts
written_parts ((key, some value) ∷ parts) = (key, value) ∷ written_parts parts

unfoldable pub push_fields : (ℤ → String) → CallEvent → List (String × String)
push_fields format e = written_parts (form_parts format e)
