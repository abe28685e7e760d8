-- ===== src/Ingest/Upload/Refusals.antt =====
-- What the checks of the form in `PostCallUpload` answer is no import.
use open_scanner.Base.{
  ◌≡◌, refl, inl, inr, Bool, false, Option, none, some, String, Bool-cases, ℤ, str_eq,
}
use open_scanner.Ingest.Upload.{Env, Form}
use open_scanner.Ingest.Upload.Parse.{
  Parsed, refused, parsed, parse_form, parse_checked, parse_complete, parse_system, parse_talkgroup,
}
use open_scanner.Ingest.Upload.Quiet.{is_import}

abbrev pub answers_import : Parsed → Bool
answers_import (refused r) = is_import r.body
answers_import (parsed meta) = false

parse_talkgroup-refuses :
    (env : Env) (form : Form) (t system : ℤ) (o : Option ℤ)
    → answers_import (parse_talkgroup env form t system o) ≡ false
parse_talkgroup-refuses env form t system none = refl
parse_talkgroup-refuses env form t system (some talkgroup) = refl

parse_system-refuses :
    (env : Env) (form : Form) (t : ℤ) (o : Option ℤ)
    → answers_import (parse_system env form t o) ≡ false
parse_system-refuses env form t none = refl
parse_system-refuses env form t (some system) = parse_talkgroup-refuses env form t system _

parse_complete-refuses :
    (env : Env) (form : Form) (o : Option ℤ) → answers_import (parse_complete env form o) ≡ false
parse_complete-refuses env form none = refl
parse_complete-refuses env form (some t) = parse_system-refuses env form t _

parse_checked-refuses :
    (env : Env) (form : Form) (o : Option String)
    → answers_import (parse_checked env form o) ≡ false
parse_checked-refuses env form (some reason) = refl
parse_checked-refuses env form none = parse_complete-refuses env form _

pub parse_form-refuses : (env : Env) (form : Form) → answers_import (parse_form env form) ≡ false
unfolding parse_form
parse_form-refuses env form = elim (Bool-cases (str_eq (form.field "test") "1")) [
  | inl e ↦ rw e refl
  | inr e ↦ rw e (parse_checked-refuses env form _)
]
