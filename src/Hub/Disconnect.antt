-- ===== src/Hub/Disconnect.antt =====
-- `DisconnectByUser` of backend/internal/ws/hub.go, with other events in between.
use open_scanner.Base.{
  ℕ, ◌≡◌, refl, ap, ◌∙◌, ◌⊎◌, inl, inr, Bool, true, false, ◌||◌, String, List, [], ◌∷◌, arith, ◌==◌,
  if◌then◌else◌, length, keep, map, any, All, Bool-cases, subst, ==_iff,
}
use open_scanner.Hub.{
  Client, Hub, BroadcastMsg, try_send, deliver, unregister_one, register, expire_at, close_all,
  is_of, count_by_user, Event, registers, unregisters, broadcasts, expires, stops, step, run,
  unregister_at, disconnect_events, disconnect_by_user,
}

-- The events of two histories in one order, each history in its own order.
abbrev pub IsMerge : List Event → List Event → List Event → Type 0
IsMerge xs ys [] = (xs ≡ []) × (ys ≡ [])
IsMerge xs ys (e ∷ es) =
    ((xs' : List Event) × (xs ≡ e ∷ xs') × IsMerge xs' ys es)
    ⊎ ((ys' : List Event) × (ys ≡ e ∷ ys') × IsMerge xs ys' es)

-- No new connection of the user.
abbrev pub IsNotOf : ℕ → Event → Type 0
IsNotOf uid (registers c) = (c.user_id == uid) ≡ false
IsNotOf uid (unregisters address) = Unit
IsNotOf uid (broadcasts msg) = Unit
IsNotOf uid (expires expired address) = Unit
IsNotOf uid stops = Unit

abbrev unregisters_at : ℕ → Event → Bool
unregisters_at address (unregisters a) = a == address
unregisters_at address (registers c) = false
unregisters_at address (broadcasts msg) = false
unregisters_at address (expires expired a) = false
unregisters_at address stops = false

-- A connection of the user in the map is still to be unregistered.
abbrev Awaits : ℕ → List Event → Client → Type 0
Awaits uid xs c = (is_of uid c ≡ false) ⊎ (any (unregisters_at c.address) xs ≡ true)

-- Such an `f` brings no connection of the user back.
abbrev IsTame : ℕ → (Client → Client) → Type 0
IsTame uid f =
    (c : Client) → ((f c).address ≡ c.address) × (is_of uid c ≡ false → is_of uid (f c) ≡ false)

map-Awaits :
    (uid : ℕ) (xs : List Event) (f : Client → Client) (cs : List Client)
    → IsTame uid f
    → All (Awaits uid xs) cs
    → All (Awaits uid xs) (map f cs)
map-Awaits uid xs f [] tame h = tt
map-Awaits uid xs f (c ∷ cs) tame (first, h) = (
  elim first [
    | inl e ↦ inl ((tame c).1 e)
    | inr e ↦ inr (ap (λ a. any (unregisters_at a) xs) (tame c).0 ∙ e)
  ],
  map-Awaits uid xs f cs tame h,
)

deliver-IsTame : (uid : ℕ) (msg : BroadcastMsg) → IsTame uid (deliver msg)
unfolding deliver try_send
deliver-IsTame uid msg c = (ground arith, λ h. ground arith)

unregister_one-IsTame : (uid : ℕ) → IsTame uid unregister_one
unfolding unregister_one
unregister_one-IsTame uid c = (ground arith, λ h. ground arith)

unregister_at-IsTame : (uid address : ℕ) → IsTame uid (unregister_at address)
unfolding unregister_one
unregister_at-IsTame uid address c = (ground arith, λ h. ground arith)

expire_at-IsTame :
    (uid : ℕ) (expired : String) (address : ℕ) → IsTame uid (expire_at expired address)
unfolding expire_at try_send
expire_at-IsTame uid expired address c = (ground arith, λ h. ground arith)

step-Awaits :
    (uid : ℕ) (xs : List Event) (h : Hub) (e : Event)
    → IsNotOf uid e
    → All (Awaits uid xs) h.clients
    → All (Awaits uid xs) (step h e).clients
unfolding step register close_all
step-Awaits uid xs h (registers c) other a = elim (Bool-cases h.is_done) [
  | inl over ↦ (rw over (inl refl), a)
  | inr running ↦ (rw running (inl other), a)
]
step-Awaits uid xs h (unregisters address) other a =
    map-Awaits uid xs _ h.clients (unregister_at-IsTame uid address) a
step-Awaits uid xs h (expires expired address) other a =
    map-Awaits uid xs _ h.clients (expire_at-IsTame uid expired address) a
step-Awaits uid xs h stops other a = map-Awaits uid xs _ h.clients (unregister_one-IsTame uid) a
step-Awaits uid xs h (broadcasts msg) other a =
    either h.is_done h (record h { clients = map (deliver msg) h.clients }) a
      (map-Awaits uid xs _ h.clients (deliver-IsTame uid msg) a)
  where
    either :
        (b : Bool) (k l : Hub)
        → All (Awaits uid xs) k.clients
        → All (Awaits uid xs) l.clients
        → All (Awaits uid xs) (if b then k else l).clients
    either true k l a b = a
    either false k l a b = b

unregister_at-gone :
    (uid address : ℕ) (c : Client)
    → (address == c.address) ≡ true
    → is_of uid (unregister_at address c) ≡ false
unfolding unregister_one
unregister_at-gone uid address c e = ground arith

-- Taking an event of the call, the connection that it unregisters is gone.
unregistered-Awaits :
    (uid address : ℕ) (xs : List Event) (cs : List Client)
    → All (Awaits uid (unregisters address ∷ xs)) cs
    → All (Awaits uid xs) (map (unregister_at address) cs)
unregistered-Awaits uid address xs [] a = tt
unregistered-Awaits uid address xs (c ∷ cs) (first, a) =
    (one first, unregistered-Awaits uid address xs cs a)
  where
    one : Awaits uid (unregisters address ∷ xs) c → Awaits uid xs (unregister_at address c)
    one (inl e) = inl ((unregister_at-IsTame uid address c).1 e)
    one (inr e) = elim (Bool-cases (address == c.address)) [
      | inl same ↦ inl (unregister_at-gone uid address c same)
      | inr other ↦ inr (
          ap (λ b. any (unregisters_at b) xs) (unregister_at-IsTame uid address c).0
          ∙ rw other at e)
    ]

-- The events of the call itself.
own-Awaits :
    (uid : ℕ) (xs : List Event) (h : Hub) (e : Event)
    → IsNotOf uid e
    → All (Awaits uid (e ∷ xs)) h.clients
    → All (Awaits uid xs) (step h e).clients
own-Awaits uid xs h (unregisters address) other a =
    unfold step in unregistered-Awaits uid address xs h.clients a
own-Awaits uid xs h (registers c) other a = step-Awaits uid xs h (registers c) other a
own-Awaits uid xs h (broadcasts msg) other a = step-Awaits uid xs h (broadcasts msg) other a
own-Awaits uid xs h (expires expired address) other a =
    step-Awaits uid xs h (expires expired address) other a
own-Awaits uid xs h stops other a = step-Awaits uid xs h stops other a

-- At the end nothing is awaited.
run-Awaits :
    (uid : ℕ) (h : Hub) (xs ys es : List Event)
    → IsMerge xs ys es
    → All (IsNotOf uid) xs
    → All (IsNotOf uid) ys
    → All (Awaits uid xs) h.clients
    → All (Awaits uid []) (run h es).clients
unfolding run
run-Awaits uid h xs ys [] (none_left, e) own other a =
    subst (λ zs. All (Awaits uid zs) h.clients) none_left a
run-Awaits uid h xs ys (e ∷ es) (inl (xs', cut, merge)) own other a =
    let (first, rest) = subst (λ zs. All (IsNotOf uid) zs) cut own in
    run-Awaits uid (step h e) xs' ys es merge rest other
      (own-Awaits uid xs' h e first (subst (λ zs. All (Awaits uid zs) h.clients) cut a))
run-Awaits uid h xs ys (e ∷ es) (inr (ys', cut, merge)) own other a =
    let (first, rest) = subst (λ zs. All (IsNotOf uid) zs) cut other in
    run-Awaits uid (step h e) xs ys' es merge own rest (step-Awaits uid xs h e first a)

Awaits-none :
    (uid : ℕ) (cs : List Client) → All (Awaits uid []) cs → length (keep (is_of uid) cs) ≡ 0
Awaits-none uid [] a = refl
Awaits-none uid (c ∷ cs) (inl e, a) = rw e (Awaits-none uid cs a)
Awaits-none uid (c ∷ cs) (inr e, a) = cc

-- The call is for every connection of the user that the map has.
weaker-Awaits :
    (uid address : ℕ) (expired : String) (xs : List Event) (cs : List Client)
    → All (Awaits uid xs) cs
    → All (Awaits uid (expires expired address ∷ unregisters address ∷ xs)) cs
weaker-Awaits uid address expired xs [] a = tt
weaker-Awaits uid address expired xs (c ∷ cs) (first, a) = (
  elim first [ inl e ↦ inl e | inr e ↦ inr (later (address == c.address) _ e) ],
  weaker-Awaits uid address expired xs cs a,
)
  where
    later : (x y : Bool) → y ≡ true → (x || y) ≡ true
    later true y e = refl
    later false y e = e

chosen-Awaits :
    (uid : ℕ) (expired : String) (c : Client) (cs : List Client) (b : Bool)
    → is_of uid c ≡ b
    → All (Awaits uid (disconnect_events expired (keep (is_of uid) cs))) cs
    → let kept = keep (is_of uid) cs in
      All (Awaits uid (disconnect_events expired (if b then c ∷ kept else kept))) (c ∷ cs)
chosen-Awaits uid expired c cs false e a = (inl e, a)
chosen-Awaits uid expired c cs true e a = (
  inr (
      ap
        (λ b. b || any (unregisters_at c.address) (disconnect_events expired (keep (is_of uid) cs)))
        ((==_iff c.address c.address).1 refl)),
  weaker-Awaits uid c.address expired (disconnect_events expired (keep (is_of uid) cs)) cs a,
)

disconnect_events-Awaits :
    (uid : ℕ) (expired : String) (cs : List Client)
    → All (Awaits uid (disconnect_events expired (keep (is_of uid) cs))) cs
disconnect_events-Awaits uid expired [] = tt
disconnect_events-Awaits uid expired (c ∷ cs) =
    chosen-Awaits uid expired c cs _ refl (disconnect_events-Awaits uid expired cs)

disconnect_events-IsNotOf :
    (uid : ℕ) (expired : String) (cs : List Client)
    → All (IsNotOf uid) (disconnect_events expired cs)
disconnect_events-IsNotOf uid expired [] = tt
disconnect_events-IsNotOf uid expired (c ∷ cs) =
    (tt, (tt, disconnect_events-IsNotOf uid expired cs))

-- When the event loop has taken all that `DisconnectByUser` sent, in whatever order with other
-- events, none of which registers a connection of the user, the user has no connection left in the
-- hub.
pub disconnect_by_user-count_by_user :
    (h : Hub) (expired : String) (uid : ℕ) (others es : List Event)
    → IsMerge (disconnect_by_user h expired uid) others es
    → All (IsNotOf uid) others
    → count_by_user (run h es) uid ≡ 0
unfolding count_by_user disconnect_by_user
disconnect_by_user-count_by_user h expired uid others es merge other =
    Awaits-none uid (run h es).clients (
      run-Awaits uid h _ others es merge
        (disconnect_events-IsNotOf uid expired (keep (is_of uid) h.clients)) other
        (disconnect_events-Awaits uid expired h.clients))
