-- ===== src/Server/Hub/History.antt =====
-- Which devices are listed, by the history of the messages.
use odyssey_desktop.Prelude.{
  ◌≡◌, refl, ap, ◌∙◌, Bool, true, false, none, some, List, [], ◌∷◌, arith, Bytes, bytes_eq,
  if◌then◌else◌, is_some,
}
use odyssey_desktop.Server.Hub.{
  Hub, Message, handle, run, connect, disconnect, update_device, update_name, dongle_connect,
  dongle_update, dongle_disconnect, event,
}
use odyssey_desktop.Server.Hub.Refine.{
  View, IsUnique, find_device, view, spec_step, handle_refines, handle-IsUnique,
}

module _ {S T Ev : Type 0} where
  -- Whether the last `Connect` or `Disconnect` of the UUID connects it; `b` if there is none.
  abbrev pub last_link : Bytes → Bool → List (Message S T Ev) → Bool
  last_link u b [] = b
  last_link u b (connect d c ∷ ms) = last_link u (if bytes_eq d.uuid u then true else b) ms
  last_link u b (disconnect d ∷ ms) = last_link u (if bytes_eq d.uuid u then false else b) ms
  last_link u b (update_device d ∷ ms) = last_link u b ms
  last_link u b (update_name uuid name ∷ ms) = last_link u b ms
  last_link u b (dongle_connect info tx ∷ ms) = last_link u b ms
  last_link u b (dongle_update info ∷ ms) = last_link u b ms
  last_link u b (dongle_disconnect id ∷ ms) = last_link u b ms
  last_link u b (event e ∷ ms) = last_link u b ms

  step_link :
      (dummy_tx : S) (v : View S T) (m : Message S T Ev) (ms : List (Message S T Ev)) (u : Bytes)
      → last_link u (is_some ((spec_step dummy_tx v m).device u)) ms
        ≡ last_link u (is_some (v.device u)) (m ∷ ms)
  step_link dummy_tx v (connect d none) ms u = ground arith
  step_link dummy_tx v (connect d (some tx)) ms u = ground arith
  step_link dummy_tx v (disconnect d) ms u = ground arith
  step_link dummy_tx v (update_device d) ms u = ground arith
  step_link dummy_tx v (update_name uuid name) ms u = ground arith
  step_link dummy_tx v _ ms u = refl

  -- After any messages a device is listed exactly if the last `Connect` or `Disconnect` of its UUID
  -- was a `Connect`, or there was none and it was listed at the start. Updates, renames, dongle
  -- messages and events change nothing of that.
  pub listed-run :
      (dummy_tx : S) (ms : List (Message S T Ev)) (h : Hub S T) (u : Bytes)
      → IsUnique h
      → is_some (find_device u (run dummy_tx h ms).0.device_list)
        ≡ last_link u (is_some (find_device u h.device_list)) ms
  unfolding run
  listed-run dummy_tx [] h u v = refl
  listed-run dummy_tx (m ∷ ms) h u v =
      listed-run dummy_tx ms (handle dummy_tx h m).0 u (handle-IsUnique dummy_tx h m v)
      ∙ ap (λ (w : View S T). last_link u (is_some (w.device u)) ms) (handle_refines dummy_tx h m v)
      ∙ step_link dummy_tx (view h) m ms u
