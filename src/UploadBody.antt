-- ===== src/UploadBody.antt =====
-- internal/client/client.go: `deterministicReader`, the body of an upload. The generator of math/rand,
-- from its seed on, is the sequence of bytes `draws` that its `Read` hands out, one behind the other.
-- Sizes are not negative, which `Uploader.Run` checks.
pub mod Whole
mod Tests
use quixiot.Prelude.{
  ℕ, zero, suc, ◌+◌, ◌-◌, Bool, true, false, List, [], ◌∷◌, ◌++◌, Bytes, ltb, ◌==◌, if◌then◌else◌,
}

-- `position` counts the bytes drawn so far.
pub record DeterministicReader : Type 0 where
  pub remaining : ℕ
  pub position : ℕ

abbrev pub new_deterministic_reader : ℕ → DeterministicReader
new_deterministic_reader size = record { remaining = size; position = 0 }

module _ (draws : ℕ → ℕ) where
  -- `rnd.Read`: `n` bytes from a position on.
  pub drawn : ℕ → ℕ → Bytes
  drawn position zero = []
  drawn position (suc n) = draws position ∷ drawn (suc position) n

  -- `Read` into a buffer: the bytes, if it is the end, and the reader behind it.
  pub read : ℕ → DeterministicReader → Bytes × Bool × DeterministicReader
  unfolding drawn
  read buffer r =
      if r.remaining == 0
      then ([], true, r)
      else let n = if ltb r.remaining buffer then r.remaining else buffer in
        let after : DeterministicReader = record {
          remaining = r.remaining - n;
          position = r.position + n;
        } in
        (drawn r.position n, r.remaining - n == 0, after)

  -- `io.Copy`, with buffers of these sizes: the bytes, and if the end was reached.
  pub copy : List ℕ → DeterministicReader → Bytes × Bool
  unfolding read
  copy [] r = ([], false)
  copy (buffer ∷ more) r =
      let (bytes, end, after) = read buffer r in
      let (rest, done) = copy more after in if end then (bytes, true) else (bytes ++ rest, done)
