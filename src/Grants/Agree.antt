-- ===== src/Grants/Agree.antt =====
-- The three filters on grants, compared: see Grants for the code.
use open_scanner.Base.{
  ℕ, ◌≡◌, ◌≢◌, ◌↔◌, refl, ◌⊎◌, inl, inr, true, false, none, some, String, arith, List, [], ◌∷◌,
  ◌==◌, eq_iff, if◌then◌else◌, sym, ap, ◌∙◌, ==_iff, Bool-cases,
}
use open_scanner.Grants.{
  SystemGrant, Slice, Json, NullString, elements, parse_system_grants, has_talkgroup, scan,
  has_system_access, parse_grants, can_receive, Viewer, load_user_grants, is_granted, is_empty,
  nil_if_empty, receives_talkgroup, scan_received, grants_talkgroup, scan_granted,
}

-- The talkgroup is listed.
abbrev pub Lists : ℕ → List ℕ → Type 0
Lists talkgroup [] = ⊥
Lists talkgroup (tg ∷ tgs) = (tg ≡ talkgroup) ⊎ Lists talkgroup tgs

-- A grant covers a call: it is for the call's system, and lists the call's talkgroup or none at all.
abbrev pub Covers : SystemGrant → ℕ → ℕ → Type 0
Covers g system talkgroup = (g.id ≡ system) × ((g.talkgroups ≡ []) ⊎ Lists talkgroup g.talkgroups)

-- Some grant covers the call.
abbrev pub SomeCovers : List SystemGrant → ℕ → ℕ → Type 0
SomeCovers [] system talkgroup = ⊥
SomeCovers (g ∷ gs) system talkgroup = Covers g system talkgroup ⊎ SomeCovers gs system talkgroup

has_talkgroup_iff :
    (talkgroup : ℕ) (tgs : List ℕ) → (has_talkgroup talkgroup tgs ≡ true) ↔ Lists talkgroup tgs
unfolding has_talkgroup
has_talkgroup_iff talkgroup [] = (λ h. cc, λ h. absurd h)
has_talkgroup_iff talkgroup (tg ∷ tgs) = (
  λ h. elim (Bool-cases (tg == talkgroup)) [
    | inl e ↦ inl ((==_iff tg talkgroup).0 e)
    | inr e ↦ inr ((has_talkgroup_iff talkgroup tgs).0 (rw e at h))
  ],
  λ h. elim h [
    | inl e ↦ rw ((==_iff tg talkgroup).1 e) refl
    | inr k ↦ ground (arith, (has_talkgroup_iff talkgroup tgs).1 k)
  ],
)

Covers-scan :
    (g : SystemGrant) (gs : List SystemGrant) (system talkgroup : ℕ)
    → Covers g system talkgroup
    → scan (g ∷ gs) system talkgroup ≡ true
unfolding scan
Covers-scan g gs system talkgroup (own, inl none_listed) =
    rw (own, none_listed, (==_iff system system).1 refl)
Covers-scan g gs system talkgroup (own, inr listed) =
    ground (arith, (has_talkgroup_iff talkgroup g.talkgroups).1 listed)

scan-Covers :
    (g : SystemGrant) (gs : List SystemGrant) (system talkgroup : ℕ)
    → scan (g ∷ gs) system talkgroup ≡ true
    → Covers g system talkgroup ⊎ (scan gs system talkgroup ≡ true)
unfolding scan
scan-Covers g gs system talkgroup h = elim (Bool-cases (g.id == system)) [
  | inr other ↦ inr (rw other at h)
  | inl own ↦ elim (Bool-cases (has_talkgroup talkgroup g.talkgroups)) [
    | inl listed ↦
        inl ((==_iff g.id system).0 own, inr ((has_talkgroup_iff talkgroup g.talkgroups).0 listed))
    | inr unlisted ↦ unrestricted g.talkgroups refl own unlisted
  ]
]
  where
    unrestricted :
        (tgs : List ℕ)
        → g.talkgroups ≡ tgs
        → (g.id == system) ≡ true
        → has_talkgroup talkgroup g.talkgroups ≡ false
        → Covers g system talkgroup ⊎ (scan gs system talkgroup ≡ true)
    unrestricted [] e own unlisted = inl ((==_iff g.id system).0 own, inl e)
    unrestricted (tg ∷ tgs) e own unlisted = inr (rw (own, unlisted, e) at h)

scan-cons :
    (g : SystemGrant) (gs : List SystemGrant) (system talkgroup : ℕ)
    → scan gs system talkgroup ≡ true
    → scan (g ∷ gs) system talkgroup ≡ true
unfolding scan
scan-cons g gs system talkgroup h = ground arith

scan-covers_iff :
    (gs : List SystemGrant) (system talkgroup : ℕ)
    → (scan gs system talkgroup ≡ true) ↔ SomeCovers gs system talkgroup
scan-covers_iff [] system talkgroup = (λ h. unfold scan in cc, λ h. absurd h)
scan-covers_iff (g ∷ gs) system talkgroup = (
  λ h. elim (scan-Covers g gs system talkgroup h) [
    | inl k ↦ inl k
    | inr k ↦ inr ((scan-covers_iff gs system talkgroup).0 k)
  ],
  λ h. elim h [
    | inl k ↦ Covers-scan g gs system talkgroup k
    | inr k ↦ scan-cons g gs system talkgroup ((scan-covers_iff gs system talkgroup).1 k)
  ],
)

-- A listener with grants may hear a call exactly if some grant is for the call's system and lists
-- the call's talkgroup or none at all; one with no grants may hear every call.
pub has_system_access_iff :
    (grants : Slice) (system talkgroup : ℕ)
    → (has_system_access grants system talkgroup ≡ true)
      ↔ ((elements grants ≡ []) ⊎ SomeCovers (elements grants) system talkgroup)
unfolding has_system_access
has_system_access_iff grants system talkgroup = decide (elements grants)
  where
    decide :
        (gs : List SystemGrant)
        → ((if is_empty gs then true else scan gs system talkgroup) ≡ true)
          ↔ ((gs ≡ []) ⊎ SomeCovers gs system talkgroup)
    decide [] = (λ h. inl refl, λ h. refl)
    decide (g ∷ gs) = (
      λ h. inr ((scan-covers_iff (g ∷ gs) system talkgroup).0 h),
      λ h. elim h [ inl e ↦ absurd (cc) | inr k ↦ (scan-covers_iff (g ∷ gs) system talkgroup).1 k ],
    )

-- The three pairs of loops decide alike.
receives_talkgroup-has_talkgroup :
    (talkgroup : ℕ) (tgs : List ℕ) → receives_talkgroup talkgroup tgs ≡ has_talkgroup talkgroup tgs
unfolding receives_talkgroup has_talkgroup
receives_talkgroup-has_talkgroup talkgroup [] = refl
receives_talkgroup-has_talkgroup talkgroup (tg ∷ tgs) =
    ap (λ b. if tg == talkgroup then true else b) (receives_talkgroup-has_talkgroup talkgroup tgs)

grants_talkgroup-has_talkgroup :
    (talkgroup : ℕ) (tgs : List ℕ) → grants_talkgroup talkgroup tgs ≡ has_talkgroup talkgroup tgs
unfolding grants_talkgroup has_talkgroup
grants_talkgroup-has_talkgroup talkgroup [] = refl
grants_talkgroup-has_talkgroup talkgroup (tg ∷ tgs) =
    ap (λ b. if tg == talkgroup then true else b) (grants_talkgroup-has_talkgroup talkgroup tgs)

scan_received-scan :
    (gs : List SystemGrant) (system talkgroup : ℕ)
    → scan_received gs system talkgroup ≡ scan gs system talkgroup
unfolding scan_received scan
scan_received-scan [] system talkgroup = refl
scan_received-scan (g ∷ gs) system talkgroup =
    rw
      (
        scan_received-scan gs system talkgroup,
        receives_talkgroup-has_talkgroup talkgroup g.talkgroups,
      )
      refl

scan_granted-scan :
    (gs : List SystemGrant) (system talkgroup : ℕ)
    → scan_granted gs system talkgroup ≡ scan gs system talkgroup
unfolding scan_granted scan
scan_granted-scan [] system talkgroup = refl
scan_granted-scan (g ∷ gs) system talkgroup =
    rw
      (scan_granted-scan gs system talkgroup, grants_talkgroup-has_talkgroup talkgroup g.talkgroups)
      refl

can_receive-has_system_access :
    (gs : Slice) (system talkgroup : ℕ)
    → can_receive gs system talkgroup ≡ has_system_access gs system talkgroup
unfolding can_receive has_system_access
can_receive-has_system_access none system talkgroup = refl
can_receive-has_system_access (some []) system talkgroup = refl
can_receive-has_system_access (some (g ∷ gs)) system talkgroup =
    scan_received-scan (g ∷ gs) system talkgroup

-- The REST filter on a normalised slice.
is_granted-nil_if_empty :
    (gs : Slice) (system talkgroup : ℕ)
    → is_granted (nil_if_empty gs) system talkgroup ≡ has_system_access gs system talkgroup
unfolding is_granted has_system_access
is_granted-nil_if_empty none system talkgroup = refl
is_granted-nil_if_empty (some []) system talkgroup = refl
is_granted-nil_if_empty (some (g ∷ gs)) system talkgroup =
    scan_granted-scan (g ∷ gs) system talkgroup

load_user_grants-parse_grants :
    (j : Json) (v : Viewer) (uid : ℕ) (sj : NullString)
    → v.role ≢ "admin"
    → v.user_id ≡ some uid
    → v.systems_json uid ≡ some sj
    → load_user_grants j v ≡ nil_if_empty (parse_grants j sj)
unfolding load_user_grants parse_grants
load_user_grants-parse_grants j v uid sj listener user row =
    ground (arith, eq_iff v.role "admin", row)

-- The two decoders give the same slice.
parse_grants-parse_system_grants :
    (j : Json) (sj : NullString)
    → ((s : String) → j.is_blank s ≡ true → j.unmarshal s ≡ none)
    → j.is_blank "" ≡ true
    → parse_grants j sj ≡ parse_system_grants j sj
unfolding parse_grants parse_system_grants
parse_grants-parse_system_grants j sj fails blank_empty =
    ground (arith, fails sj.string, eq_iff sj.string "")

-- The three filters on a listener's grants, `IsGranted` of the REST API, `CanReceive` of the live
-- feed and `HasSystemAccess` of the bookmarks, never disagree. Whatever the `systems_json` of a user
-- who is no administrator holds, well-formed or not, the three decisions on a call are the same, if
-- the user's row can be read and the decoder fails on a text of white space, the empty text among
-- them.
pub filters_agree :
    (j : Json) (v : Viewer) (uid : ℕ) (sj : NullString) (system talkgroup : ℕ)
    → ((s : String) → j.is_blank s ≡ true → j.unmarshal s ≡ none)
    → j.is_blank "" ≡ true
    → v.role ≢ "admin"
    → v.user_id ≡ some uid
    → v.systems_json uid ≡ some sj
    → (is_granted (load_user_grants j v) system talkgroup
        ≡ can_receive (parse_grants j sj) system talkgroup)
      × (can_receive (parse_grants j sj) system talkgroup
          ≡ has_system_access (parse_system_grants j sj) system talkgroup)
filters_agree j v uid sj system talkgroup fails blank_empty listener user row = (
  rw (load_user_grants-parse_grants j v uid sj listener user row) (
      is_granted-nil_if_empty (parse_grants j sj) system talkgroup
      ∙ sym (can_receive-has_system_access _ system talkgroup)),
  can_receive-has_system_access (parse_grants j sj) system talkgroup
      ∙ ap (λ gs. has_system_access gs system talkgroup)
          (parse_grants-parse_system_grants j sj fails blank_empty),
)
