-- ===== src/Buffered/Reader.antt =====
-- fusio/src/impls/buffered.rs: BufReader over any reader. Positions are u64 and usize of 64 bits, which
-- are far from their bounds for a file that exists.
pub mod Exact
use fusio.Base.{
  ℕ, zero, suc, ◌+◌, ◌-◌, min, List, [], ◌∷◌, ◌++◌, length, take, drop, Option, none, some, Bool,
  true, false, not, ◌||◌, ◌==◌, leb, if◌then◌else◌, Text,
}
use fusio.Effect.{Result, ok, err, spent, Exec, pure, exhausted, ◌>>=◌}
use fusio.Manifest.Types.{FsError, fs_io, unexpected_eof}

-- The trait Read: the bytes that a call of this length reads.
pub record Source (W : Type 0) : Type 0 where
  pub source_read_exact_at : (len pos : ℕ) → Exec FsError W Text
  pub source_size : Exec FsError W ℕ

-- The buffer with the position in it, the size of the file, and the offset of the buffer's first byte.
pub record Reading (W : Type 0) : Type 0 where
  pub world : W
  pub fill : Option (Text × ℕ)
  pub file_size : ℕ
  pub offset : ℕ

-- No buffer, or one that is used up or stands elsewhere.
unfoldable pub is_used_up : Option (Text × ℕ) → (offset pos : ℕ) → Bool
is_used_up none offset pos = true
is_used_up (some (b, current)) offset pos = (length b == current) || not (offset + current == pos)

-- How many bytes the buffer gives, which bytes, and the buffer behind them. There is a buffer
-- whenever filling_buf answers Ok.
unfoldable pub min_len : Option (Text × ℕ) → ℕ → ℕ
min_len none want = 0
min_len (some (b, current)) want = min (length b - current) want

unfoldable pub chunk : Option (Text × ℕ) → ℕ → Text
unfolding min_len
chunk none want = []
chunk (some (b, current)) want = take (min_len (some (b, current)) want) (drop current b)

unfoldable pub advanced : Option (Text × ℕ) → ℕ → Option (Text × ℕ)
unfolding min_len
advanced none want = none
advanced (some (b, current)) want = some (b, current + min_len (some (b, current)) want)

unfoldable pub refilled :
    {W : Type 0} → ℕ → Reading W → Result FsError Text × W → Result FsError Unit × Reading W
refilled pos s (ok b, w) = (ok tt, record s { world = w; fill = some (b, 0); offset = pos })
refilled pos s (err e, w) = (err e, record s { world = w })
refilled pos s (spent, w) = (spent, record s { world = w })

module _ {W : Type 0} (f : Source W) (capacity : ℕ) where
  -- BufReader::new
  unfoldable pub open_reader : Exec FsError W (Reading W)
  open_reader = do
    size ← f.source_size
    (λ w. (ok (record { world = w; fill = none; file_size = size; offset = 0 }), w))

  -- BufReader::filling_buf
  unfoldable pub filling_buf : ℕ → Exec FsError (Reading W) Unit
  unfolding is_used_up refilled
  filling_buf pos s =
      if leb s.file_size pos
      then (err (fs_io unexpected_eof), s)
      else if is_used_up s.fill s.offset pos
      then refilled pos s (f.source_read_exact_at (min capacity (s.file_size - pos)) pos s.world)
      else (ok tt, s)

  -- The loop of read_exact_at; `want` bytes are missing behind `out`.
  unfoldable pub read_loop : (fuel pos want : ℕ) → Text → Exec FsError (Reading W) Text
  unfolding filling_buf min_len chunk advanced
  read_loop zero pos want out = exhausted
  read_loop (suc fuel) pos want out =
      let turn : Exec FsError (Reading W) Text = filling_buf pos >>= (λ _ s.
        read_loop fuel (pos + min_len s.fill want) (want - min_len s.fill want)
          (out ++ chunk s.fill want) (record s { fill = advanced s.fill want })) in
      if want == 0 then pure out else turn

  -- BufReader::read_exact_at, on a buffer of the caller of this length.
  unfoldable pub read_exact : (fuel len pos : ℕ) → Exec FsError (Reading W) Text
  unfolding read_loop
  read_exact fuel len pos = read_loop fuel pos len []

  -- BufReader::read_to_end_at, for a position in the file: it reads over the caller's buffer.
  unfoldable pub read_to_end : (fuel pos : ℕ) → Exec FsError (Reading W) Text
  unfolding read_exact
  read_to_end fuel pos s = read_exact fuel (s.file_size - pos) pos s

  -- BufReader::size
  unfoldable pub size_of : Exec FsError (Reading W) ℕ
  size_of s = (ok s.file_size, s)
