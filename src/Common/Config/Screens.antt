-- ===== src/Common/Config/Screens.antt =====
-- `screen_calibrations_async` finds the calibration of every screen: no `try_push` of it fails.
use mathlib.Core.List.{append_assoc, append-nil}
use odyssey_desktop.Prelude.{
  Result-cases, Option-cases, ℕ, ◌%◌, ◌^◌, zero, suc, ◌+◌, ◌≤◌, ◌<◌, ◌≡◌, refl, sym, ◌∙◌, inl, inr,
  true, false, Option, none, some, List, [], ◌∷◌, ◌++◌, Bytes, arith, length, length-append, Result,
  ok, err,
}
use odyssey_desktop.Common.Config.{
  screen_json, Files, ScreenCalibrations, try_push, load_screen, load_screens_from,
  screen_calibrations,
}

module _ {S C : Type 0} (files : Files S) (parse : Bytes → Result C Bytes) (s : S)
    (dir : Bytes) where
  -- What the file of a screen has: nothing if there is none or this cannot be told, a calibration,
  -- or the path and an error.
  unfoldable pub screen_of : ℕ → Option (Result C (Bytes × Bytes))
  screen_of i =
      let path = files.join dir (screen_json i) in
      elim (files.try_exists s path) [
        | err e ↦ none
        | ok there ↦ elim there [
          | false ↦ none
          | true ↦ elim (files.read_to_string s path) [
            | err e ↦ some (err (path, e))
            | ok txt ↦ elim (parse txt) [ err e ↦ some (err (path, e)) | ok cal ↦ some (ok cal) ]
          ]
        ]
      ]

  add_found : ℕ → Option (Result C (Bytes × Bytes)) → ScreenCalibrations C → ScreenCalibrations C
  add_found i none acc = acc
  add_found i (some (ok cal)) acc = record acc {
    calibrations = acc.calibrations ++ (i % 2 ^ 8, cal) ∷ [];
  }
  add_found i (some (err p)) acc = record acc {
    corrupted_screens = acc.corrupted_screens ++ (i % 2 ^ 8, p) ∷ [];
  }

  -- The screens `i`, `i + 1` and so on, `left` of them, that have a calibration.
  unfoldable pub found_from : ℕ → ℕ → List (ℕ × C)
  unfolding screen_of
  found_from zero i = []
  found_from (suc left) i =
      let rest = found_from left (i + 1) in
      elim (screen_of i) [
        | none ↦ rest
        | some r ↦ elim r [ err p ↦ rest | ok cal ↦ (i % 2 ^ 8, cal) ∷ rest ]
      ]

  -- Those that have an error.
  unfoldable pub failed_from : ℕ → ℕ → List (ℕ × (Bytes × Bytes))
  unfolding screen_of
  failed_from zero i = []
  failed_from (suc left) i =
      let rest = failed_from left (i + 1) in
      elim (screen_of i) [
        | none ↦ rest
        | some r ↦ elim r [ err p ↦ (i % 2 ^ 8, p) ∷ rest | ok cal ↦ rest ]
      ]

  load_screen_lem :
      (capacity i : ℕ) (acc : ScreenCalibrations C)
      → length acc.calibrations < capacity
      → load_screen files parse capacity s dir i acc ≡ add_found i (screen_of i) acc
  unfolding load_screen screen_of add_found try_push
  load_screen_lem capacity i acc h =
      let path = files.join dir (screen_json i) in
      elim (Result-cases (files.try_exists s path)) [
        | inl (e, t) ↦ rw (t, load_screen, screen_of) refl
        | inr (false, t) ↦ rw (t, load_screen, screen_of) refl
        | inr (true, t) ↦ elim (Result-cases (files.read_to_string s path)) [
          | inl (e, c) ↦ rw (t, load_screen, screen_of) (rw (c, load_screen, screen_of) refl)
          | inr (txt, c) ↦ elim (Result-cases (parse txt)) [
            | inl (e, p) ↦
                rw (t, load_screen, screen_of)
                  (rw (c, load_screen, screen_of) (rw (p, load_screen, screen_of) refl))
            | inr (cal, p) ↦
                rw (t, load_screen, screen_of)
                  (rw (c, load_screen, screen_of)
                    (rw (p, load_screen, screen_of) (ground (arith, h))))
          ]
        ]
      ]

  screens_from :
      (capacity left i : ℕ) (acc : ScreenCalibrations C)
      → length acc.calibrations + left ≤ capacity
      → ((load_screens_from files parse capacity s dir left i acc).calibrations
          ≡ acc.calibrations ++ found_from left i)
        × ((load_screens_from files parse capacity s dir left i acc).corrupted_screens
            ≡ acc.corrupted_screens ++ failed_from left i)
  unfolding load_screens_from found_from failed_from add_found
  screens_from capacity zero i acc h =
      (sym (append-nil acc.calibrations), sym (append-nil acc.corrupted_screens))
  screens_from capacity (suc left) i acc h =
      rw (load_screen_lem capacity i acc (omega (arith, h)), load_screens_from)
        (elim (Option-cases (screen_of i)) [
          | inl n ↦
              rw (n, add_found, found_from, failed_from)
                (screens_from capacity left (i + 1) acc (omega (arith, h)))
          | inr (ok cal, n) ↦
              let acc' = add_found i (some (ok cal)) acc in
              let (a, b) =
                screens_from capacity left (i + 1) acc'
                  (omega (arith, h, length-append acc.calibrations ((i % 2 ^ 8, cal) ∷ []))) in
              rw (n, add_found, found_from, failed_from)
                (
                  a
                      ∙ append_assoc acc.calibrations ((i % 2 ^ 8, cal) ∷ [])
                          (found_from left (i + 1)),
                  b,
                )
          | inr (err p, n) ↦
              let acc' = add_found i (some (err p)) acc in
              let (a, b) = screens_from capacity left (i + 1) acc' (omega (arith, h)) in
              rw (n, add_found, found_from, failed_from)
                (
                  a,
                  b
                      ∙ append_assoc acc.corrupted_screens ((i % 2 ^ 8, p) ∷ [])
                          (failed_from left (i + 1)),
                )
        ])

-- Where the application has a directory, `screen_calibrations_async` returns exactly the
-- calibrations and the failures of the screens below the capacity, in their order.
pub screen_calibrations_lem :
    {S C : Type 0} (files : Files S) (parse : Bytes → Result C Bytes) (capacity : ℕ) (s : S)
    (dir : Bytes)
    → files.config_dir s ≡ ok dir
    → ((screen_calibrations files parse capacity s).calibrations
        ≡ found_from files parse s dir capacity 0)
      × ((screen_calibrations files parse capacity s).corrupted_screens
          ≡ failed_from files parse s dir capacity 0)
unfolding screen_calibrations
screen_calibrations_lem files parse capacity s dir d =
    rw (d, screen_calibrations)
      (screens_from files parse s dir capacity capacity 0
        (record { calibrations = []; corrupted_screens = [] }) (omega arith))
