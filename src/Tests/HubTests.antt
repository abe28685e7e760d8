-- ===== src/Tests/HubTests.antt =====
-- backend/internal/ws/hub.go at concrete inputs.
use open_scanner.Base.{◌≡◌, refl, inl, inr, true, false, none, List, [], ◌∷◌, All}
use open_scanner.Hub.{
  Client, Hub, Event, registers, unregisters, broadcasts, expires, stops, run, new_hub,
  disconnect_by_user, count_by_user,
}
use open_scanner.Hub.Clients.{IsSound, run-new_hub}
use open_scanner.Hub.Disconnect.{IsMerge, disconnect_by_user-count_by_user}

abbrev tab : Client
tab = record {
  address = 1;
  user_id = 7;
  jti = "a";
  is_admin = false;
  is_v1 = true;
  send = [];
  is_closed = false;
  drop_count = 0;
  is_registered = true;
}

abbrev day : List Event
day =
    registers tab
    ∷ broadcasts (record { payload = "CAL"; v1 = none; filter = none })
    ∷ expires "XPR" 1
    ∷ unregisters 1
    ∷ stops
    ∷ registers (record tab { address = 2 })
    ∷ []

run-new_hub_example : All (IsSound (run new_hub day).is_done) (run new_hub day).clients
run-new_hub_example = run-new_hub day

abbrev hub : Hub
hub = record { clients = tab ∷ []; is_done = false }

-- Between the notice and the end of the connection somebody else registers.
abbrev evening : List Event
evening = expires "XPR" 1 ∷ registers (record tab { address = 2; user_id = 8 }) ∷ unregisters 1 ∷ []

evening-IsMerge :
    IsMerge
      (disconnect_by_user hub "XPR" 7)
      (registers (record tab { address = 2; user_id = 8 }) ∷ [])
      evening
unfolding disconnect_by_user
evening-IsMerge = inl (_, refl, inr (_, refl, inl (_, refl, (refl, refl))))

disconnect_by_user-count_by_user_example : count_by_user (run hub evening) 7 ≡ 0
disconnect_by_user-count_by_user_example =
    disconnect_by_user-count_by_user hub "XPR" 7
      (registers (record tab { address = 2; user_id = 8 }) ∷ []) evening evening-IsMerge (refl, tt)
