-- ===== src/Archive/Guarded.antt =====
-- `GetCalls` of backend/internal/handler/calls/search.go against the grants of the viewer, and
-- `GetCallAudio` with them.
use open_scanner.Base.{
  ℕ, suc, true, ◌≡◌, refl, ap, inl, inr, ◌≤◌, ◌-◌, ◌*◌, Option, none, some, String, List, [], ◌∷◌,
  arith, length, All, Member, Member-keep, Bool-cases, length-keep-le, ℤ, wrap_64, str_eq,
}
use open_scanner.Grants.{Slice, load_user_grants, is_granted}
use open_scanner.Ingest.Tables.{Call, LabelRow, Lookup}
use open_scanner.Ingest.Rows.{get_group_by_label, get_tag_by_label}
use open_scanner.Archive.{Archive, ArchiveEnv, ArchiveRequest}
use open_scanner.Archive.Audio.{get_call_audio}
use open_scanner.Archive.Rows.{Filter}
use open_scanner.Archive.Search.Results.{result_of, results_of}
use open_scanner.Archive.Search.{
  Listing, Step, go, stop, listed_page, query_or, parse_csv_strings, known_ids, refuse_or,
  ints_step, labels_step, date_step, count_step, capped, sort_step, allowed, search_calls, and_then,
  get_page, get_dated, get_calls,
}
use open_scanner.Archive.Access.{IsOpen, IsServed, IsListed}
use open_scanner.Archive.Pages.{IsPage, list_calls-IsPage}
use open_scanner.Archive.Served.{get_call_audio-IsServed}

module _ (env : ArchiveEnv) (a : Archive) (req : ArchiveRequest) where
  -- A step stops with a good listing.
  abbrev Stops : {A : Type 0} → Step A → Type 0
  Stops (go x) = Unit
  Stops (stop l) = IsListed env a req l

  and_then-IsListed :
      {A : Type 0} (s : Step A) (next : A → Listing)
      → Stops s
      → ((x : A) → IsListed env a req (next x))
      → IsListed env a req (and_then s next)
  and_then-IsListed (go x) next h k = k x
  and_then-IsListed (stop l) next h k = h

  refuse_or-Stops : {A : Type 0} (message : String) (o : Option A) → Stops (refuse_or message o)
  refuse_or-Stops message none = tt
  refuse_or-Stops message (some x) = tt

  ints_step-Stops : (raw message : String) → Stops (ints_step env raw message)
  ints_step-Stops raw message = refuse_or-Stops message _

  known_ids-Stops : (ids : List ℕ) → Stops (known_ids ids)
  known_ids-Stops [] = (omega arith, tt)
  known_ids-Stops (id ∷ ids) = tt

  labels_step-Stops :
      (find : String → Lookup LabelRow) (ls : List String) → Stops (labels_step find ls)
  labels_step-Stops find [] = tt
  labels_step-Stops find (l ∷ ls) = known_ids-Stops _

  date_step-Stops : (raw message : String) → Stops (date_step env raw message)
  date_step-Stops raw message = elim (Bool-cases (str_eq raw "")) [
    | inl e ↦ rw e tt
    | inr e ↦ rw e (refuse_or-Stops message _)
  ]

  count_step-Stops :
      (raw : String) (default : ℕ) (message : String) → Stops (count_step env raw default message)
  count_step-Stops raw default message = elim (Bool-cases (str_eq raw "")) [
    | inl e ↦ rw e tt
    | inr e ↦ rw e (refuse_or-Stops message _)
  ]

  sort_step-Stops : (raw : String) → Stops (sort_step env raw)
  sort_step-Stops raw = elim (Bool-cases (str_eq raw "")) [
    | inl e ↦ rw e tt
    | inr e ↦ elim (Bool-cases (str_eq (env.to_lower raw) "asc")) [
      | inl f ↦ rw (e, f) tt
      | inr f ↦ elim (Bool-cases (str_eq (env.to_lower raw) "desc")) [
        | inl g ↦ rw (e, f, g) tt
        | inr g ↦ rw (e, f, g) tt
      ]
    ]
  ]

  allowed-Member :
      (gs : Slice) (cs : List Call) (c : Call)
      → Member c (allowed gs cs)
      → Member c cs × (is_granted gs c.system_id c.talkgroup_id ≡ true)
  unfolding is_granted
  allowed-Member none cs c m = (m, refl)
  allowed-Member (some gs) cs c m =
      Member-keep (λ d. is_granted (some gs) d.system_id d.talkgroup_id) cs c m

  length-allowed : (gs : Slice) (cs : List Call) → length (allowed gs cs) ≤ length cs
  length-allowed none cs = omega arith
  length-allowed (some gs) cs = length-keep-le _ cs

  length-results_of : (cs : List Call) → length (results_of env a req cs) ≡ length cs
  length-results_of [] = refl
  length-results_of (c ∷ cs) = ap suc (length-results_of cs)

  results_of-All :
      (cs : List Call)
      → ((c : Call) → Member c cs → IsOpen env a req c)
      → All
          (λ r. (c : Call) × IsOpen env a req c × (r ≡ result_of env a req c))
          (results_of env a req cs)
  results_of-All [] h = tt
  results_of-All (c ∷ cs) h = ((c, h c (inl refl), refl), results_of-All cs (λ d m. h d (inr m)))

  listed_page-IsListed :
      (before limit : ℕ) (count : Option ℕ) (page : Option (List Call))
      → limit ≤ 100
      → IsPage env a limit page
      → IsListed env a req (listed_page env a req before limit count page)
  listed_page-IsListed before limit none page h p = tt
  listed_page-IsListed before limit (some total) none h p = tt
  listed_page-IsListed before limit (some total) (some cs) h (short, within) =
      let grants = load_user_grants env.grants_json req.viewer in
      let e = length-results_of (allowed grants cs) in
      let fewer = length-allowed grants cs in
      (
        omega arith,
        results_of-All (allowed grants cs)
            (λ c m. let (k, open_call) = allowed-Member grants cs c m in (within c k, open_call)),
      )

  capped_le : (n : ℕ) → capped n ≤ 100
  capped_le n = ground arith

  get_page-IsListed : (f : Filter) → IsListed env a req (get_page env a req f)
  unfolding search_calls
  get_page-IsListed f =
      and_then-IsListed _ _ (count_step-Stops (req.query "page") 1 "invalid page") (λ page.
        and_then-IsListed _ _ (count_step-Stops (req.query "limit") 25 "invalid limit") (λ n.
          and_then-IsListed _ _ (sort_step-Stops (req.query "sort")) (λ ascending.
            listed_page-IsListed _ (capped n) _ _ (capped_le n)
              (list_calls-IsPage env a f ascending (wrap_64 ((page - 1) * capped n)) (capped n)))))

  get_dated-IsListed :
      (systems talkgroups : List ℤ) (groups tags : List ℕ)
      → IsListed env a req (get_dated env a req systems talkgroups groups tags)
  get_dated-IsListed systems talkgroups groups tags =
      and_then-IsListed _ _ (date_step-Stops (req.query "date_from") "invalid date_from") (λ from.
        and_then-IsListed _ _ (date_step-Stops (req.query "date_to") "invalid date_to")
          (λ to. get_page-IsListed _))

  get_calls-IsListed : IsListed env a req (get_calls env a req)
  unfolding get_calls
  get_calls-IsListed =
      and_then-IsListed _ _ (ints-stop "system_ids" "system_id" "invalid system_ids") (λ ss.
        and_then-IsListed _ _ (ints-stop "talkgroup_ids" "talkgroup_id" "invalid talkgroup_ids")
          (λ ts.
            and_then-IsListed _ _ (labels-stop (get_group_by_label env.fails a.db) "groups" "group")
              (λ gs.
                and_then-IsListed _ _ (labels-stop (get_tag_by_label env.fails a.db) "tags" "tag")
                  (λ tgs. get_dated-IsListed ss ts gs tgs))))
    where
      ints-stop :
          (many one message : String) → Stops (ints_step env (query_or req many one) message)
      ints-stop many one message = ints_step-Stops (query_or req many one) message

      labels-stop :
          (find : String → Lookup LabelRow) (many one : String)
          → Stops (labels_step find (parse_csv_strings env (query_or req many one)))
      labels-stop find many one =
          labels_step-Stops find (parse_csv_strings env (query_or req many one))

-- For every archive and request: when `GetCallAudio` serves a file, the request has a user or public
-- access is on, the id asked for is that of a call of the table that the viewer's grants let through,
-- its path cleaned neither begins with ".." nor is absolute, and the bytes are those found there below
-- the recordings directory. When `GetCalls` lists rows, there are at most 100 and each is the row of a
-- call of the table that the viewer's grants let through; nothing is said of who may ask, since
-- `GetCalls` also answers a viewer without a user, whom no grants restrict, while public access is off.
pub archive-AreGuarded :
    (env : ArchiveEnv) (a : Archive) (req : ArchiveRequest)
    → IsServed env a req (get_call_audio env a req) × IsListed env a req (get_calls env a req)
archive-AreGuarded env a req = (get_call_audio-IsServed env a req, get_calls-IsListed env a req)
