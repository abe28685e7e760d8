-- ===== src/Downstream/Arrival.antt =====
-- What a pushed call is at the server that it is pushed to: the form of `pushCall`, read by
-- `PostCallUpload`, which serves the pushed path.
use open_scanner.Base.{
  ◌≡◌, refl, sym, ap, ◌∙◌, inl, inr, false, Option, none, some, String, List, [], ◌∷◌,
  if◌then◌else◌, str_eq, eq_iff, Bool-cases, ℤ, pos, eq_ℤ, All,
}
use open_scanner.Ingest.Sources.{extract_primary_source, extract_primary_source_tag}
use open_scanner.Ingest.Upload.{Env, Form, Meta, CallEvent}
use open_scanner.Ingest.Upload.Parse.{
  or_else, parsed, parse_form, meta_of, incomplete_reason, talkgroup_field, system_field,
  or_extracted, parse_date_time, parse_checked, parse_complete, parse_system, parse_talkgroup,
}
use open_scanner.Downstream.Fields.{number_part, text_part, form_parts, written_parts, push_fields}

-- `PostForm` of a multipart form: the first value of a key, "" without one.
abbrev pub first_value : List (String × String) → String → String
first_value [] key = ""
first_value ((k, value) ∷ fields) key = if str_eq k key then value else first_value fields key

-- The same before the empty fields are left out.
abbrev seek : List (String × Option String) → String → String
seek [] key = ""
seek ((k, o) ∷ parts) key = if str_eq k key then or_else o (seek parts key) else seek parts key

first_value-written_parts :
    (parts : List (String × Option String)) (key : String)
    → first_value (written_parts parts) key ≡ seek parts key
first_value-written_parts [] key = refl
first_value-written_parts ((k, none) ∷ parts) key = elim (Bool-cases (str_eq k key)) [
  | inl e ↦ rw e (first_value-written_parts parts key)
  | inr e ↦ rw e (first_value-written_parts parts key)
]
first_value-written_parts ((k, some v) ∷ parts) key = elim (Bool-cases (str_eq k key)) [
  | inl e ↦ rw e refl
  | inr e ↦ rw e (first_value-written_parts parts key)
]

-- A number that is 0 and a text that is "" are not given.
abbrev pub given_number : ℤ → Option ℤ
given_number n = if eq_ℤ n (pos 0) then none else some n

abbrev pub given_text : String → Option String
given_text v = if str_eq v "" then none else some v

-- The receiver gets the event.
pub record Arrives (env : Env) (e : CallEvent) (m : Meta) : Type 0 where
  pub date_time : m.date_time ≡ e.date_time
  pub system : m.system_raw ≡ e.system_id
  pub talkgroup : m.talkgroup_raw ≡ e.talkgroup_id
  pub frequency : m.frequency ≡ given_number e.frequency
  pub duration : m.duration ≡ given_number e.duration
  pub source :
      m.source
      ≡ or_extracted
          (given_number e.source)
          (extract_primary_source env.json)
          (given_text e.sources)
  pub sources : m.sources ≡ given_text e.sources
  pub frequencies : m.frequencies ≡ given_text e.frequencies
  pub patches : m.patches ≡ given_text e.patches
  pub talker_alias :
      m.talker_alias
      ≡ or_extracted
          (given_text e.talker_alias)
          (extract_primary_source_tag env.json)
          (given_text e.sources)
  pub system_label : m.system_label ≡ e.system_label
  pub talkgroup_label : m.talkgroup_label ≡ e.talkgroup_label
  pub talkgroup_name : m.talkgroup_name ≡ e.talkgroup_name
  pub talkgroup_group : m.talkgroup_group ≡ e.talkgroup_group
  pub talkgroup_tag : m.talkgroup_tag ≡ e.talkgroup_tag

text-arrives : (v : String) → or_else (text_part v) "" ≡ v
text-arrives v = elim (Bool-cases (str_eq v "")) [
  | inl e ↦ rw e (sym ((eq_iff v "").0 e))
  | inr e ↦ rw e refl
]

-- The numbers of an event that a push writes, and that the receiver reads them.
abbrev pub numbers_of : CallEvent → List ℤ
numbers_of e = e.date_time ∷ e.system_id ∷ e.talkgroup_id ∷ e.frequency ∷ e.duration ∷ e.source ∷ []

abbrev pub Reads : Env → (ℤ → String) → CallEvent → Type 0
Reads env format e = All (λ n. env.parse_int (format n) ≡ some n) (numbers_of e)

-- One receiver, which reads the numbers that the sender writes, and the form that arrives.
module _ (env : Env) (format : ℤ → String) (form : Form) (e : CallEvent) (content_type : String)
    (reads : Reads env format e) (reads_no_empty : env.parse_int "" ≡ none)
    (arrived : (key : String) → form.field key ≡ first_value (push_fields format e) key)
    (attached : form.audio ≡ some content_type) where
  field-seek : (key : String) → form.field key ≡ seek (form_parts format e) key
  unfolding push_fields
  field-seek key = arrived key ∙ first_value-written_parts (form_parts format e) key

  format-filled : (n : ℤ) → env.parse_int (format n) ≡ some n → str_eq (format n) "" ≡ false
  format-filled n readable = elim (Bool-cases (str_eq (format n) "")) [
    | inr f ↦ f
    | inl f ↦
        let k : some n ≡ none =
          sym readable ∙ ap env.parse_int ((eq_iff (format n) "").0 f) ∙ reads_no_empty in
        cc
  ]

  number-arrives :
      (key : String) (n : ℤ)
      → env.parse_int (format n) ≡ some n
      → form.field key ≡ or_else (number_part format n) ""
      → (if str_eq (form.field key) "" then none else env.parse_int (form.field key))
        ≡ given_number n
  number-arrives key n readable q = rw q (elim (Bool-cases (eq_ℤ n (pos 0))) [
    | inl f ↦ rw f refl
    | inr f ↦ rw (f, format-filled n readable) readable
  ])

  text_field-arrives :
      (key v : String)
      → form.field key ≡ or_else (text_part v) ""
      → (if str_eq (form.field key) "" then none else some (form.field key)) ≡ given_text v
  text_field-arrives key v q = rw (q, text-arrives v) refl

  time-field : form.field "dateTime" ≡ format e.date_time
  time-field = field-seek "dateTime"

  system-field : form.field "systemId" ≡ format e.system_id
  system-field = field-seek "systemId"

  talkgroup-field : form.field "talkgroupId" ≡ format e.talkgroup_id
  talkgroup-field = field-seek "talkgroupId"

  form_complete : incomplete_reason form ≡ none
  unfolding incomplete_reason
  form_complete =
      rw
        (
          talkgroup-field,
          system-field,
          time-field,
          format-filled e.talkgroup_id reads.1.1.0,
          format-filled e.talkgroup_id reads.1.1.0,
          format-filled e.system_id reads.1.0,
          format-filled e.system_id reads.1.0,
          format-filled e.date_time reads.0,
          attached,
        )
        refl

  time-arrives : parse_date_time env (form.field "dateTime") ≡ some e.date_time
  time-arrives = rw (time-field, parse_date_time, reads.0) refl

  system-arrives : env.parse_int (system_field form) ≡ some e.system_id
  system-arrives = rw (system-field, format-filled e.system_id reads.1.0) reads.1.0

  talkgroup-arrives : env.parse_int (talkgroup_field form) ≡ some e.talkgroup_id
  talkgroup-arrives = rw (talkgroup-field, format-filled e.talkgroup_id reads.1.1.0) reads.1.1.0

  parse_form-accepts :
      parse_form env form ≡ parsed (meta_of env form e.date_time e.system_id e.talkgroup_id)
  unfolding parse_form
  parse_form-accepts = rw (field-seek "test") (
      ap (parse_checked env form) form_complete
      ∙ ap (parse_complete env form) time-arrives
      ∙ ap (parse_system env form e.date_time) system-arrives
      ∙ ap (parse_talkgroup env form e.date_time e.system_id) talkgroup-arrives)

  abbrev read_sources : Option String
  read_sources = if str_eq (form.field "sources") "" then none else some (form.field "sources")

  meta-Arrives : Arrives env e (meta_of env form e.date_time e.system_id e.talkgroup_id)
  unfolding meta_of
  meta-Arrives = record {
    date_time = refl;
    system = refl;
    talkgroup = refl;
    frequency = number-arrives "frequency" e.frequency reads.1.1.1.0 (field-seek "frequency");
    duration = number-arrives "duration" e.duration reads.1.1.1.1.0 (field-seek "duration");
    source =
        ap (λ o. or_extracted o (extract_primary_source env.json) read_sources)
          (number-arrives "source" e.source reads.1.1.1.1.1.0 (field-seek "source"))
        ∙ ap (or_extracted (given_number e.source) (extract_primary_source env.json))
            (text_field-arrives "sources" e.sources (field-seek "sources"));
    sources = text_field-arrives "sources" e.sources (field-seek "sources");
    frequencies = text_field-arrives "frequencies" e.frequencies (field-seek "frequencies");
    patches = text_field-arrives "patches" e.patches (field-seek "patches");
    talker_alias =
        ap (λ o. or_extracted o (extract_primary_source_tag env.json) read_sources)
          (text_field-arrives "talkerAlias" e.talker_alias (field-seek "talkerAlias"))
        ∙ ap (or_extracted (given_text e.talker_alias) (extract_primary_source_tag env.json))
            (text_field-arrives "sources" e.sources (field-seek "sources"));
    system_label = field-seek "systemLabel" ∙ text-arrives e.system_label;
    talkgroup_label = field-seek "talkgroupLabel" ∙ text-arrives e.talkgroup_label;
    talkgroup_name = field-seek "talkgroupName" ∙ text-arrives e.talkgroup_name;
    talkgroup_group = field-seek "talkgroupGroup" ∙ text-arrives e.talkgroup_group;
    talkgroup_tag = field-seek "talkgroupTag" ∙ text-arrives e.talkgroup_tag;
  }

-- The form of a pushed call reads as its event.
pub push_fields-read :
    (env : Env) (format : ℤ → String) (form : Form) (e : CallEvent) (content_type : String)
    → Reads env format e
    → env.parse_int "" ≡ none
    → ((key : String) → form.field key ≡ first_value (push_fields format e) key)
    → form.audio ≡ some content_type
    → (m : Meta) × (parse_form env form ≡ parsed m) × Arrives env e m
push_fields-read env format form e content_type reads reads_no_empty arrived attached = (
  meta_of env form e.date_time e.system_id e.talkgroup_id,
  parse_form-accepts env format form e content_type reads reads_no_empty arrived attached,
  meta-Arrives env format form e content_type reads reads_no_empty arrived attached,
)
