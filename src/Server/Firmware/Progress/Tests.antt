-- ===== src/Server/Firmware/Progress/Tests.antt =====
-- A firmware of 50 bytes that is read in three parts.
use odyssey_desktop.Prelude.{ℕ, ◌≡◌, refl, true, List, [], ◌∷◌, arith, ok, err}
use odyssey_desktop.Server.Firmware.Progress.{
  Poll, ready, pending, new, poll_read, poll_all, called_back, logged,
}
use odyssey_desktop.Server.Firmware.Progress.Bounds.{reports, after, poll_all-new}

abbrev polls : List (Poll ℕ)
polls = ready (ok 20) ∷ pending ∷ ready (ok 3) ∷ ready (err 7) ∷ ready (ok 27) ∷ []

poll_all-polls :
    (poll_all (new 50 true) polls).1
    ≡ logged 20 50 40
      ∷ called_back 20 50
      ∷ called_back 23 50
      ∷ logged 50 50 100
      ∷ called_back 50 50
      ∷ []
unfolding poll_all poll_read
poll_all-polls = refl

poll_all-new_example :
    ((poll_all (new 50 true) polls).0 ≡ after (new 50 true) 50)
    × ((poll_all (new 50 true) polls).1 ≡ reports 50 true 0 polls)
poll_all-new_example = poll_all-new 50 true polls (omega arith) (omega arith) (omega arith)
