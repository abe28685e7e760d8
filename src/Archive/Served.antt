-- ===== src/Archive/Served.antt =====
-- The file that `GetCallAudio` of backend/internal/handler/calls/audio.go serves.
use mathlib.Core.Option.{some-injective}
use open_scanner.Base.{
  ℕ, Bool, true, false, ◌≡◌, refl, ap, sym, subst, ◌∙◌, inl, inr, Option, none, some, List, [], ◌∷◌,
  ◌==◌, Member, Bool-cases, ==_iff,
}
use open_scanner.Store.{find_first}
use open_scanner.Ingest.Tables.{Call, lookup}
use open_scanner.Archive.{
  Archive, ArchiveEnv, ArchiveRequest, Opened, content, missing, broken, get_call,
}
use open_scanner.Archive.Audio.{
  id_of, may_read, is_unsafe, serve_call, opened_file, found_call, audio_of, get_call_audio,
}
use open_scanner.Archive.Access.{granted, IsOpen, IsServed}

module _ (env : ArchiveEnv) (a : Archive) (req : ArchiveRequest) where
  find_first-call :
      (cs : List Call) (id : ℕ) (c : Call)
      → find_first (λ d. d.id == id) cs ≡ some c
      → Member c cs × (id ≡ c.id)
  unfolding find_first
  find_first-call [] id c h = cc
  find_first-call (d ∷ ds) id c h = elim (Bool-cases (d.id == id)) [
    | inl e ↦ here e (rw e at h)
    | inr e ↦ let (m, i) = find_first-call ds id c (rw e at h) in (inr m, i)
  ]
    where
      here : (d.id == id) ≡ true → some d ≡ some c → Member c (d ∷ ds) × (id ≡ c.id)
      here e h =
          let same = some-injective d c h in
          (inl (sym same), subst (λ x. id ≡ x.id) same (sym ((==_iff d.id id).0 e)))

  opened_file-IsServed :
      (c : Call) (o : Opened)
      → env.open_below (env.clean c.audio_path) ≡ o
      → may_read env a req ≡ true
      → id_of (env.parse_int req.id) ≡ some c.id
      → IsOpen env a req c
      → is_unsafe env (env.clean c.audio_path) ≡ false
      → IsServed env a req (opened_file c o)
  opened_file-IsServed c missing e r i o s = tt
  opened_file-IsServed c broken e r i o s = tt
  opened_file-IsServed c (content bytes) e r i o s = (r, (c, i, o, s, e))

  serve_call-IsServed :
      (c : Call)
      → may_read env a req ≡ true
      → id_of (env.parse_int req.id) ≡ some c.id
      → Member c a.db.calls
      → IsServed env a req (serve_call env req c)
  unfolding serve_call
  serve_call-IsServed c r i m = elim (Bool-cases (granted env a req c)) [
    | inr e ↦ rw e tt
    | inl e ↦ elim (Bool-cases (is_unsafe env (env.clean c.audio_path))) [
      | inl u ↦ rw (e, u) tt
      | inr u ↦ rw (e, u) (opened_file-IsServed c _ refl r i (m, e) u)
    ]
  ]

  found_call-IsServed :
      (id : ℕ) (o : Option Call) (b : Bool)
      → find_first (λ d. d.id == id) a.db.calls ≡ o
      → may_read env a req ≡ true
      → id_of (env.parse_int req.id) ≡ some id
      → IsServed env a req (found_call env req (lookup b o))
  found_call-IsServed id o true h r i = tt
  found_call-IsServed id none false h r i = tt
  found_call-IsServed id (some c) false h r i =
      let (m, same) = find_first-call a.db.calls id c h in
      serve_call-IsServed c r (i ∙ ap some same) m

  audio_of-IsServed :
      (o : Option ℕ) → id_of (env.parse_int req.id) ≡ o → IsServed env a req (audio_of env a req o)
  unfolding get_call
  audio_of-IsServed none i = tt
  audio_of-IsServed (some id) i = elim (Bool-cases (may_read env a req)) [
    | inr e ↦ rw e tt
    | inl e ↦ rw e (found_call-IsServed id _ _ refl e i)
  ]

  pub get_call_audio-IsServed : IsServed env a req (get_call_audio env a req)
  unfolding get_call_audio
  get_call_audio-IsServed = audio_of-IsServed _ refl
