-- ===== src/Server/Firmware/Progress.antt =====
-- `ProgressReader` of firmware.rs: a reader that counts what passes through it. The inner reader is
-- what its polls return, and calls of the callback and log lines are what a poll puts out.
pub mod Bounds
pub mod Tests
use odyssey_desktop.Prelude.{
  ℕ, ◌+◌, ◌*◌, ◌/◌, ◌%◌, ◌^◌, Bool, ◌||◌, Option, none, some, List, [], ◌∷◌, ◌++◌, ltb, leb, ◌==◌,
  if◌then◌else◌, Result, ok, err,
}

pub data Poll (E : Type 0) : Type 0 where
  ready : Result ℕ E → Poll E
  pending : Poll E

-- `has_callback` is whether `callback` is `Some`.
pub record ProgressReader : Type 0 where
  pub total_size : ℕ
  pub bytes_read : ℕ
  pub last_logged_percent : ℕ
  pub has_callback : Bool

-- A log line has the bytes, the total and the percentage.
pub data Output : Type 0 where
  logged : ℕ → ℕ → ℕ → Output
  called_back : ℕ → ℕ → Output

abbrev pub new : ℕ → Bool → ProgressReader
new total_size callback = record {
  total_size = total_size;
  bytes_read = 0;
  last_logged_percent = 0;
  has_callback = callback;
}

-- `usize` has 64 bits.
pub percent_of : ℕ → ℕ → ℕ
percent_of bytes_read total_size =
    if ltb 0 total_size then ((bytes_read * 100) % 2 ^ 64) / total_size else 100

-- A poll, given what the poll of the inner reader returns.
pub poll_read : {E : Type 0} → ProgressReader → Poll E → ProgressReader × List Output × Poll E
unfolding percent_of
poll_read r (ready (ok n)) =
    let bytes_read = (r.bytes_read + n) % 2 ^ 64 in
    let percent = percent_of bytes_read r.total_size in
    let log = leb (r.last_logged_percent + 10) percent || percent == 100 in
    let last = if log then percent / 10 * 10 else r.last_logged_percent in
    (
      record r { bytes_read = bytes_read; last_logged_percent = last },
      (if log then logged bytes_read r.total_size percent ∷ [] else [])
          ++ (if r.has_callback then called_back bytes_read r.total_size ∷ [] else []),
      ready (ok n),
    )
poll_read r (ready (err e)) = (r, [], ready (err e))
poll_read r pending = (r, [], pending)

-- The polls of a download in order.
pub poll_all : {E : Type 0} → ProgressReader → List (Poll E) → ProgressReader × List Output
poll_all r [] = (r, [])
poll_all r (p ∷ ps) =
    let (r', out, _) = poll_read r p in let (r'', rest) = poll_all r' ps in (r'', out ++ rest)
