-- ===== src/Stream/Listener/Sound.antt =====
-- The invariant of one `Serve` of backend/internal/stream/manager.go, for a predicate that knows the
-- first frames of calls.
use mathlib.Core.Path.{subst}
use mathlib.Core.Option.{some-injective}
use open_scanner.Base.{
  ℕ, ◌+◌, ◌-◌, ◌<◌, ◌≡◌, refl, ap, ◌∙◌, ◌⊎◌, inl, inr, Bool, true, false, Option, none, some, List,
  [], ◌∷◌, ◌++◌, arith, ltb, ◌==◌, if◌then◌else◌, length, get_elem?, length-append, All, ◌&&◌,
  Bool-cases, All-append, All-drop, All-map, get_elem?-lt, get_elem?-append_left,
  get_elem?-append_at,
}
use open_scanner.Stream.Mp3.{Bytes}
use open_scanner.Stream.Listener.{
  QueuedFrame, Listener, Popped, Session, Event, enqueues, primes, ticks, cancels, next,
  append_frames, enqueue, pop, wrote, prime, tick, step, run,
}

module _ {κ} (P : ℕ → Bytes → Type κ) where
  -- A frame with a call id is a first frame that `P` knows.
  abbrev Marked : QueuedFrame → Type κ
  Marked f = (f.call_id ≡ 0) ⊎ P f.call_id f.bytes

  abbrev pub Known : Event → Type κ
  Known (enqueues call_id (f ∷ fs)) = P call_id f
  Known _ = Unit

  -- A cue names a position that is written, and the frame there is a first frame of its call.
  abbrev pub Cued : List Bytes → ℕ × ℕ → Type κ
  Cued written (call_id, position) =
      (frame : Bytes) × (get_elem? written position ≡ some frame) × P call_id frame

  pub record Sound (s : Session) : Type κ where
    pub marked : All Marked s.listener.queue
    pub counted : s.is_open ≡ true → s.listener.frames_written ≡ length s.written
    pub cued : All (Cued s.written) s.cues

  append_frames-later :
      (call_id i : ℕ) (frames : List Bytes) (queue : List QueuedFrame)
      → 0 < i
      → All Marked queue
      → All Marked (append_frames call_id i frames queue)
  unfolding append_frames
  append_frames-later call_id i [] queue later marked = marked
  append_frames-later call_id i (f ∷ fs) queue later marked =
      append_frames-later call_id (i + 1) fs _ (omega arith)
        (All-append Marked queue _ marked (inl (ground arith), tt))

  append_frames-Marked :
      (call_id : ℕ) (frames : List Bytes) (queue : List QueuedFrame)
      → Known (enqueues call_id frames)
      → All Marked queue
      → All Marked (append_frames call_id 0 frames queue)
  unfolding append_frames
  append_frames-Marked call_id [] queue known marked = marked
  append_frames-Marked call_id (f ∷ fs) queue known marked =
      append_frames-later call_id 1 fs _ (omega arith)
        (All-append Marked queue _ marked (inr known, tt))

  enqueue-Marked :
      (l : Listener) (call_id max_frames : ℕ) (frames : List Bytes)
      → Known (enqueues call_id frames)
      → All Marked l.queue
      → All Marked (enqueue l call_id frames max_frames).queue
  unfolding enqueue
  enqueue-Marked l call_id max_frames frames known marked =
      let queue = append_frames call_id 0 frames l.queue in
      let all = append_frames-Marked call_id frames l.queue known marked in
      elim (Bool-cases (ltb 0 max_frames && ltb max_frames (length queue))) [
        | inl long ↦ rw long (All-drop Marked (length queue - max_frames) queue all)
        | inr short ↦ rw short all
      ]

  Cued-append :
      (written : List Bytes) (frame : Bytes) (cues : List (ℕ × ℕ))
      → All (Cued written) cues
      → All (Cued (written ++ (frame ∷ []))) cues
  Cued-append written frame cues =
      All-map (Cued written) (Cued (written ++ (frame ∷ []))) cues (λ (c : ℕ × ℕ) cued. (
        cued.0,
        get_elem?-append_left written (frame ∷ []) c.1 (get_elem?-lt written c.1 cued.0 cued.1)
            ∙ cued.1,
        cued.2,
      ))

  -- What is known of a popped frame.
  record Taken (l : Listener) (p : Popped) : Type κ where
    rest : All Marked p.listener.queue
    moved : p.listener.frames_written ≡ l.frames_written + 1
    place : p.position ≡ l.frames_written
    mark : (frame : Bytes) → p.frame ≡ some frame → (p.call_id ≡ 0) ⊎ P p.call_id frame

  pop-Taken :
      (l : Listener) (queue : List QueuedFrame) (silence : List Bytes)
      → All Marked queue
      → l.queue ≡ queue
      → Taken l (pop l queue silence)
  pop-Taken l [] silence marked e = record {
    rest = rw e marked;
    moved = refl;
    place = refl;
    mark = λ frame found. inl refl;
  }
  pop-Taken l (f ∷ fs) silence (first, marked) e = record {
    rest = marked;
    moved = refl;
    place = refl;
    mark = λ frame found. elim first [
      | inl zero_id ↦ inl zero_id
      | inr known ↦ inr (subst (P f.call_id) (some-injective f.bytes frame found) known)
    ];
  }

  wrote-Sound :
      (s : Session) (p : Popped) (frame : Option Bytes) (ok : Bool) (cues : List (ℕ × ℕ))
      → Sound s
      → s.is_open ≡ true
      → Taken s.listener p
      → ((f : Bytes) → frame ≡ some f → All (Cued (s.written ++ (f ∷ []))) cues)
      → Sound (wrote s p frame ok cues)
  wrote-Sound s p none ok cues sound is_on taken all = record {
    marked = taken.rest;
    counted = λ e. cc;
    cued = sound.cued;
  }
  wrote-Sound s p (some f) false cues sound is_on taken all = record {
    marked = taken.rest;
    counted = λ e. cc;
    cued = sound.cued;
  }
  wrote-Sound s p (some f) true cues sound is_on taken all = record {
    marked = taken.rest;
    counted =
        λ e. taken.moved ∙ omega (arith, sound.counted is_on, length-append s.written (f ∷ []));
    cued = all f refl;
  }

  prime-Sound :
      (s : Session) (silence : List Bytes) (ok : Bool)
      → Sound s
      → s.is_open ≡ true
      → Sound (prime s silence ok)
  unfolding prime next
  prime-Sound s silence ok sound is_on =
      let p = pop s.listener s.listener.queue silence in
      wrote-Sound s p p.frame ok s.cues sound is_on
        (pop-Taken s.listener s.listener.queue silence sound.marked refl)
        (λ f found. Cued-append s.written f s.cues sound.cued)

  called :
      (call_id : ℕ) (f : Bytes) → (call_id == 0) ≡ false → (call_id ≡ 0) ⊎ P call_id f → P call_id f
  called call_id f starts (inl zero_id) = ground arith
  called call_id f starts (inr known) = known

  -- The cue of a tick names the position that the tick writes.
  tick-Sound :
      (s : Session) (silence : List Bytes) (ok : Bool)
      → Sound s
      → s.is_open ≡ true
      → Sound (tick s silence ok)
  unfolding tick next
  tick-Sound s silence ok sound is_on =
      let p = pop s.listener s.listener.queue silence in
      let taken = pop-Taken s.listener s.listener.queue silence sound.marked refl in
      wrote-Sound s p p.frame ok
        (if p.call_id == 0 then s.cues else s.cues ++ ((p.call_id, p.position) ∷ [])) sound is_on
        taken
        (λ f found.
          let old = Cued-append s.written f s.cues sound.cued in
          elim (Bool-cases (p.call_id == 0)) [
            | inl nothing ↦ rw nothing old
            | inr starts ↦ rw starts (
                All-append (Cued (s.written ++ (f ∷ []))) s.cues _ old (
                  (
                    f,
                    ap (get_elem? (s.written ++ (f ∷ []))) (taken.place ∙ sound.counted is_on)
                        ∙ get_elem?-append_at s.written [] f,
                    called p.call_id f starts (taken.mark f found),
                  ),
                  tt,
                ))
          ])

  either : (b : Bool) (s t : Session) → (b ≡ true → Sound s) → Sound t → Sound (if b then s else t)
  either true s t running over = running refl
  either false s t running over = over

  step-Sound :
      (silence : List Bytes) (max_frames : ℕ) (s : Session) (e : Event)
      → Known e
      → Sound s
      → Sound (step silence max_frames s e)
  unfolding step
  step-Sound silence max_frames s (enqueues call_id frames) known sound = record {
    marked = enqueue-Marked s.listener call_id max_frames frames known sound.marked;
    counted = sound.counted;
    cued = sound.cued;
  }
  step-Sound silence max_frames s (primes ok) known sound =
      either s.is_open (prime s silence ok) s (prime-Sound s silence ok sound) sound
  step-Sound silence max_frames s (ticks ok) known sound =
      either s.is_open (tick s silence ok) s (tick-Sound s silence ok sound) sound
  step-Sound silence max_frames s cancels known sound = record {
    marked = sound.marked;
    counted = λ e. cc;
    cued = sound.cued;
  }

  pub run-Sound :
      (silence : List Bytes) (max_frames : ℕ) (s : Session) (es : List Event)
      → All Known es
      → Sound s
      → Sound (run silence max_frames s es)
  unfolding run
  run-Sound silence max_frames s [] known sound = sound
  run-Sound silence max_frames s (e ∷ es) (first, known) sound =
      run-Sound silence max_frames (step silence max_frames s e) es known
        (step-Sound silence max_frames s e first sound)
