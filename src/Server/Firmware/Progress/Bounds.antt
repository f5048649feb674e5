-- ===== src/Server/Firmware/Progress/Bounds.antt =====
-- The progress that is reported is the progress that is made.
use odyssey_desktop.Prelude.{
  ap₂, ℕ, ◌+◌, ◌*◌, ◌/◌, ◌^◌, ◌≤◌, ◌<◌, ◌≡◌, List, [], ◌∷◌, ◌++◌, arith, refl, ok, err, ap, ◌∙◌,
  Bool, if◌then◌else◌, lt→ltb, ltb, ◌||◌, ◌==◌,
}
use native.Mathlib.Nat.{mod-eq_of_lt, le-div_iff_mul-le, div-mul-le_self, zero-div}
use odyssey_desktop.Server.Firmware.Progress.{
  ProgressReader, Poll, ready, pending, Output, logged, called_back, percent_of, poll_read,
  poll_all, new,
}

module _ {E : Type 0} where
  -- The bytes of the successful reads.
  abbrev pub bytes_of : List (Poll E) → ℕ
  bytes_of [] = 0
  bytes_of (ready (ok n) ∷ ps) = n + bytes_of ps
  bytes_of (ready (err e) ∷ ps) = bytes_of ps
  bytes_of (pending ∷ ps) = bytes_of ps

-- The tens of the percentage that `b` bytes are of a size.
abbrev pub tens : ℕ → ℕ → ℕ
tens total b = b * 100 / total / 10

module _ {E : Type 0} where
  -- What the polls put out, from `b` bytes on: a successful read logs a line exactly if its
  -- percentage begins another ten than the one before it or is 100, and then calls back.
  abbrev pub reports : ℕ → Bool → ℕ → List (Poll E) → List Output
  reports total callback b [] = []
  reports total callback b (ready (ok n) ∷ ps) =
      ((if ltb (tens total b) (tens total (b + n)) || (b + n) * 100 / total == 100
          then logged (b + n) total ((b + n) * 100 / total) ∷ []
          else [])
        ++ (if callback then called_back (b + n) total ∷ [] else []))
      ++ reports total callback (b + n) ps
  reports total callback b (ready (err e) ∷ ps) = reports total callback b ps
  reports total callback b (pending ∷ ps) = reports total callback b ps

abbrev pub percent : ProgressReader → ℕ
percent r = r.bytes_read * 100 / r.total_size

-- The percentage that the reader remembers is the one read, rounded down to tens.
abbrev IsRounded : ProgressReader → Type 0
IsRounded r = r.last_logged_percent ≡ percent r / 10 * 10

-- The arithmetic of a poll does not wrap.
percent_of_exact :
    (b total : ℕ)
    → 0 < total
    → b ≤ total
    → total * 100 < 2 ^ 64
    → percent_of b total ≡ b * 100 / total
unfolding percent_of
percent_of_exact b total pos le fits =
    rw (lt→ltb 0 total pos, mod-eq_of_lt {n = b * 100} {m = 2 ^ 64} (omega arith))

-- The total is positive, and the bytes do not exceed it.
abbrev Fits : ProgressReader → ℕ → Type 0
Fits r n = (0 < r.total_size) × (r.bytes_read + n ≤ r.total_size) × (r.total_size * 100 < 2 ^ 64)

-- The reader after `b` bytes: it remembers their percentage rounded down to tens.
abbrev pub after : ProgressReader → ℕ → ProgressReader
after r b = record r { bytes_read = b; last_logged_percent = b * 100 / r.total_size / 10 * 10 }

-- What a read of `n` more bytes puts out, its arithmetic computed.

abbrev put_out : ProgressReader → ℕ → List Output
put_out r n =
    let p = (r.bytes_read + n) * 100 / r.total_size in
    (if ltb (percent r / 10) (p / 10) || p == 100
      then logged (r.bytes_read + n) r.total_size p ∷ []
      else [])
    ++ (if r.has_callback then called_back (r.bytes_read + n) r.total_size ∷ [] else [])

module _ (E : Type 0) (r : ProgressReader) (n : ℕ) where
  poll_read-advanced :
      Fits r n
      → IsRounded r
      → poll_read {E = E} r (ready (ok n)) ≡ (after r (r.bytes_read + n), put_out r n, ready (ok n))
  unfolding poll_read
  poll_read-advanced (pos, le, fits) v =
      let p = (r.bytes_read + n) * 100 / r.total_size in
      let grows : percent r ≤ p =
        (le-div_iff_mul-le pos).1
          (omega (arith, div-mul-le_self (r.bytes_read * 100) r.total_size)) in
      rw (mod-eq_of_lt {n = r.bytes_read + n} {m = 2 ^ 64} (omega arith)) (
        rw (percent_of_exact (r.bytes_read + n) r.total_size pos le fits) (
          ap₂
            (λ (log : Bool) (last : ℕ). (
              record r { bytes_read = r.bytes_read + n; last_logged_percent = last },
              (if log then logged (r.bytes_read + n) r.total_size p ∷ [] else [])
                  ++ (if r.has_callback
                      then called_back (r.bytes_read + n) r.total_size ∷ []
                      else []),
              ready (ok n),
            ))
            (ground (arith, v, grows)) (ground (arith, v, grows))))

module _ {E : Type 0} where
  poll_read_pending : (r : ProgressReader) → poll_read {E = E} r pending ≡ (r, [], pending)
  unfolding poll_read
  poll_read_pending r = refl

  poll_read_err :
      (r : ProgressReader) (e : E) → poll_read r (ready (err e)) ≡ (r, [], ready (err e))
  unfolding poll_read
  poll_read_err r e = refl

  poll_all-reports :
      (r : ProgressReader) (ps : List (Poll E))
      → 0 < r.total_size
      → r.bytes_read + bytes_of ps ≤ r.total_size
      → r.total_size * 100 < 2 ^ 64
      → IsRounded r
      → ((poll_all r ps).0 ≡ after r (r.bytes_read + bytes_of ps))
        × ((poll_all r ps).1 ≡ reports r.total_size r.has_callback r.bytes_read ps)
  unfolding poll_all
  poll_all-reports r [] pos le fits v =
      (ap (λ p. record r { last_logged_percent = p }) v ∙ ap (after r) (omega arith), refl)
  poll_all-reports r (pending ∷ ps) pos le fits v =
      rw (poll_read_pending r) (poll_all-reports r ps pos le fits v)
  poll_all-reports r (ready (err e) ∷ ps) pos le fits v =
      rw (poll_read_err r e) (poll_all-reports r ps pos le fits v)
  poll_all-reports r (ready (ok n) ∷ ps) pos le fits v =
      let (i, o) = poll_all-reports (after r (r.bytes_read + n)) ps pos (omega arith) fits refl in
      rw (poll_read-advanced E r n (pos, omega arith, fits) v)
        (i ∙ ap (after r) (omega arith), ap (λ out. put_out r n ++ out) o)

  -- For a positive size whose hundredfold fits a `usize`, and polls that read no more bytes than it:
  -- the reader counts the bytes read, and remembers their percentage rounded down to tens. What the
  -- polls put out, in order: each successful read logs a line with the bytes read so far and their
  -- percentage, exactly if that begins another ten than the percentage before it or is 100; then the
  -- callback, if there is one, is called with the bytes read so far. Other polls put out nothing.
  pub poll_all-new :
      (total : ℕ) (has_callback : Bool) (ps : List (Poll E))
      → 0 < total
      → bytes_of ps ≤ total
      → total * 100 < 2 ^ 64
      → ((poll_all (new total has_callback) ps).0 ≡ after (new total has_callback) (bytes_of ps))
        × ((poll_all (new total has_callback) ps).1 ≡ reports total has_callback 0 ps)
  poll_all-new total has_callback ps pos le fits =
      let (i, o) =
        poll_all-reports (new total has_callback) ps pos (omega arith) fits
          (ground (arith, zero-div total)) in
      (i ∙ ap (after (new total has_callback)) (omega arith), o)
