-- ===== src/Stream/Manager/Notified.antt =====
-- Who hears a call: `Notify` of backend/internal/stream/manager.go.
use open_scanner.Base.{
  ℕ, suc, ◌≡◌, refl, sym, ap, ◌∙◌, Bool, true, false, Option, none, some, List, [], ◌∷◌, arith,
  ◌==◌, length, Bool-cases, any, map, keep, ◌||◌, ◌&&◌, inl, inr, if◌then◌else◌, ==_iff,
}
use open_scanner.Stream.Mp3.{Bytes}
use open_scanner.Stream.Listener.{Listener, enqueue}
use open_scanner.Stream.Manager.{
  Call, Deps, Manager, max_frames_locked, is_wanted, enqueue_wanted, notify, encoded, resolved,
}

-- The objects in the manager's map have different addresses.
abbrev pub AreDistinct : List (ℕ × Listener) → Type 0
AreDistinct [] = Unit
AreDistinct ((a, l) ∷ ls) = (any (λ (b : ℕ × Listener). b.0 == a) ls ≡ false) × AreDistinct ls

-- The address is of a listener that the filter wants.
abbrev pub is_target : (Listener → Bool) → List (ℕ × Listener) → ℕ → Bool
is_target wanted ls a = any (λ (b : ℕ × Listener). (b.0 == a) && wanted b.1) ls

abbrev serve : (ℕ → Bool) → (Listener → Listener) → ℕ × Listener → ℕ × Listener
serve chosen hear a = (a.0, if chosen a.0 then hear a.1 else a.1)

-- The listeners behind a notice: the chosen ones have the call enqueued.
abbrev pub served : (ℕ → Bool) → ℕ → List Bytes → ℕ → List (ℕ × Listener) → List (ℕ × Listener)
served chosen call_id frames max_frames ls =
    map (serve chosen (λ l. enqueue l call_id frames max_frames)) ls

-- The call with its frames, if there is silence to send and it resolves and encodes.
abbrev pub with_frames : Deps → Option Call → Option (Call × List Bytes)
with_frames deps none = none
with_frames deps (some call) = elim (deps.encode call.audio_path) [
  | none ↦ none
  | some frames ↦ some (call, frames)
]

abbrev pub heard : Deps → Manager → ℕ → Option (Call × List Bytes)
heard deps m call_id =
    if length m.silence == 0 then none else with_frames deps (deps.source call_id)

module _ (hear : Listener → Listener) where
  serve-same :
      (p q : ℕ → Bool) (ls : List (ℕ × Listener))
      → ((a : ℕ) → p a ≡ q a)
      → map (serve p hear) ls ≡ map (serve q hear) ls
  serve-same p q [] h = refl
  serve-same p q ((a, l) ∷ ls) h =
      rw (h a) (ap (λ t. serve q hear (a, l) ∷ t) (serve-same p q ls h))

  serve-nobody :
      (p : ℕ → Bool) (ls : List (ℕ × Listener))
      → ((a : ℕ) → p a ≡ false)
      → map (serve p hear) ls ≡ ls
  serve-nobody p [] h = refl
  serve-nobody p ((a, l) ∷ ls) h = rw (h a) (ap (λ t. (a, l) ∷ t) (serve-nobody p ls h))

  -- Nobody is served twice.
  serve-serve :
      (p q r : ℕ → Bool) (ls : List (ℕ × Listener))
      → ((a : ℕ) → q a ≡ true → p a ≡ false)
      → ((a : ℕ) → r a ≡ (q a || p a))
      → map (serve p hear) (map (serve q hear) ls) ≡ map (serve r hear) ls
  serve-serve p q r [] apart h = refl
  serve-serve p q r ((a, l) ∷ ls) apart h = elim (Bool-cases (q a)) [
    | inl e ↦ rw (h a, e, apart a e) (ap (λ t. (a, hear l) ∷ t) (serve-serve p q r ls apart h))
    | inr e ↦ rw (h a, e) (ap (λ t. serve p hear (a, l) ∷ t) (serve-serve p q r ls apart h))
  ]

and_or : (x y : Bool) → ((x && false) || y) ≡ y
and_or true y = refl
and_or false y = refl

and_true : (x y : Bool) → ((x && true) || y) ≡ (x || y)
and_true true y = refl
and_true false y = refl

is_target-absent :
    (wanted : Listener → Bool) (ls : List (ℕ × Listener)) (a : ℕ)
    → any (λ (b : ℕ × Listener). b.0 == a) ls ≡ false
    → is_target wanted ls a ≡ false
is_target-absent wanted [] a h = refl
is_target-absent wanted ((b, l) ∷ ls) a h = elim (Bool-cases (b == a)) [
  | inl e ↦ absurd (let k : true ≡ false = rw e at h in cc)
  | inr e ↦ rw e (is_target-absent wanted ls a (rw e at h))
]

-- The loop serves exactly the wanted targets.
enqueue_wanted-served :
    (wanted : Listener → Bool) (call_id max_frames : ℕ) (frames : List Bytes)
    (targets ls : List (ℕ × Listener))
    → AreDistinct targets
    → enqueue_wanted (keep (λ (a : ℕ × Listener). wanted a.1) targets) call_id frames max_frames ls
      ≡ served (is_target wanted targets) call_id frames max_frames ls
unfolding enqueue_wanted
enqueue_wanted-served wanted call_id max_frames frames [] ls distinct =
    sym (serve-nobody (λ l. enqueue l call_id frames max_frames) (λ a. false) ls (λ a. refl))
enqueue_wanted-served wanted call_id max_frames frames ((b, k) ∷ targets) ls (fresh, distinct) =
    elim (Bool-cases (wanted k)) [
      | inr e ↦ rw e (
          enqueue_wanted-served wanted call_id max_frames frames targets ls distinct
          ∙ serve-same hear (is_target wanted targets) (is_target wanted ((b, k) ∷ targets)) ls
              (λ a. sym (skipped e a)))
      | inl e ↦ rw e (
          enqueue_wanted-served wanted call_id max_frames frames targets _ distinct
          ∙ serve-serve hear (is_target wanted targets) (λ a. b == a)
              (is_target wanted ((b, k) ∷ targets)) ls apart (taken e))
    ]
  where
    hear : Listener → Listener
    hear l = enqueue l call_id frames max_frames

    skipped :
        wanted k ≡ false
        → (a : ℕ) → is_target wanted ((b, k) ∷ targets) a ≡ is_target wanted targets a
    skipped e a = rw e (and_or (b == a) (is_target wanted targets a))

    taken :
        wanted k ≡ true
        → (a : ℕ) → is_target wanted ((b, k) ∷ targets) a ≡ ((b == a) || is_target wanted targets a)
    taken e a = rw e (and_true (b == a) (is_target wanted targets a))

    apart : (a : ℕ) → (b == a) ≡ true → is_target wanted targets a ≡ false
    apart a same = is_target-absent wanted targets a (rw (← (==_iff b a).0 same) fresh)

-- With nobody wanted nobody is a target.
keep-is_target :
    (wanted : Listener → Bool) (ls : List (ℕ × Listener)) (a : ℕ)
    → (length (keep (λ (b : ℕ × Listener). wanted b.1) ls) == 0) ≡ true
    → is_target wanted ls a ≡ false
keep-is_target wanted [] a h = refl
keep-is_target wanted ((b, l) ∷ ls) a h = elim (Bool-cases (wanted l)) [
  | inl e ↦ absurd (nobody (rw e at h))
  | inr e ↦ rw e (and_or (b == a) _ ∙ keep-is_target wanted ls a (rw e at h))
]
  where
    nobody : (suc (length (keep (λ (b : ℕ × Listener). wanted b.1) ls)) == 0) ≡ true → ⊥
    nobody k = ground arith

-- What everyone hears of a notice.
abbrev pub heard_by :
    Deps → Manager → Manager → ℕ → Option (Call × List Bytes) → List (ℕ × Listener)
heard_by deps before m call_id none = m.listeners
heard_by deps before m call_id (some (call, frames)) =
    served (is_target (is_wanted deps.filter call) before.listeners) call_id frames
      (max_frames_locked before) m.listeners

encoded-heard_by :
    (deps : Deps) (before m : Manager) (call_id : ℕ) (call : Call) (o : Option (List Bytes))
    → AreDistinct before.listeners
    → (encoded m call_id call
        (keep (λ (a : ℕ × Listener). is_wanted deps.filter call a.1) before.listeners)
        (max_frames_locked before)
        o).0.listeners
      ≡ heard_by deps before m call_id (elim o [ none ↦ none | some frames ↦ some (call, frames) ])
encoded-heard_by deps before m call_id call none distinct = refl
encoded-heard_by deps before m call_id call (some frames) distinct =
    enqueue_wanted-served (is_wanted deps.filter call) call_id (max_frames_locked before) frames
      before.listeners m.listeners distinct

-- A notice that nobody wants.
nobody-heard_by :
    (deps : Deps) (before m : Manager) (call_id : ℕ) (call : Call) (o : Option (List Bytes))
    → ((a : ℕ) → is_target (is_wanted deps.filter call) before.listeners a ≡ false)
    → m.listeners
      ≡ heard_by deps before m call_id (elim o [ none ↦ none | some frames ↦ some (call, frames) ])
nobody-heard_by deps before m call_id call none nobody = refl
nobody-heard_by deps before m call_id call (some frames) nobody =
    sym
      (serve-nobody (λ l. enqueue l call_id frames (max_frames_locked before)) _ m.listeners nobody)

resolved-heard_by :
    (deps : Deps) (before m : Manager) (call_id : ℕ) (o : Option Call)
    → AreDistinct before.listeners
    → (resolved deps m call_id before.listeners (max_frames_locked before) o).0.listeners
      ≡ heard_by deps before m call_id (with_frames deps o)
resolved-heard_by deps before m call_id none distinct = refl
resolved-heard_by deps before m call_id (some call) distinct =
    elim (Bool-cases (
      length (keep (λ (a : ℕ × Listener). is_wanted deps.filter call a.1) before.listeners) == 0)) [
        | inl e ↦ rw e (
            nobody-heard_by deps before m call_id call (deps.encode call.audio_path)
              (λ a. keep-is_target (is_wanted deps.filter call) before.listeners a e))
        | inr e ↦
            rw e
              (encoded-heard_by deps before m call_id call (deps.encode call.audio_path) distinct)
      ]

-- Nobody is there to be a target.
empty-heard_by :
    (deps : Deps) (before m : Manager) (call_id : ℕ) (o : Option (Call × List Bytes))
    → (length before.listeners == 0) ≡ true
    → m.listeners ≡ heard_by deps before m call_id o
empty-heard_by deps before m call_id none e = refl
empty-heard_by deps before m call_id (some (call, frames)) e = sym (
    serve-nobody (λ l. enqueue l call_id frames (max_frames_locked before)) _ m.listeners
      (λ a. absent before.listeners a e))
  where
    absent :
        (ls : List (ℕ × Listener)) (a : ℕ)
        → (length ls == 0) ≡ true
        → is_target (is_wanted deps.filter call) ls a ≡ false
    absent [] a k = refl
    absent (l ∷ ls) a k = absurd (let z : (suc (length ls) == 0) ≡ true = k in ground arith)

-- Who hears a call. If there is silence to send, and the call resolves and encodes, then behind
-- `Notify` the call is enqueued, once, for each listener that was there at the first look and that the
-- filter wants and that has not left meanwhile, with the bound of that time; all other listeners are
-- as they were, those who joined meanwhile among them. In every other case all listeners are as they
-- were. The objects that are there at the first look must have different addresses.
pub notify-listeners :
    (deps : Deps) (before m : Manager) (call_id : ℕ)
    → AreDistinct before.listeners
    → (notify deps before m call_id).0.listeners
      ≡ heard_by deps before m call_id (heard deps before call_id)
unfolding notify
notify-listeners deps before m call_id distinct = elim (Bool-cases (length before.listeners == 0)) [
  | inl alone ↦ rw alone (empty-heard_by deps before m call_id _ alone)
  | inr company ↦ elim (Bool-cases (length before.silence == 0)) [
    | inl mute ↦ rw (company, mute) refl
    | inr ready ↦
        rw (company, ready) (resolved-heard_by deps before m call_id (deps.source call_id) distinct)
  ]
]
