-- ===== src/Manifest/Checkpoints/Ids.antt =====
-- Checkpoint ids and the numbers they are made of.
use fusio.Base.{ℕ, ◌≡◌, ◌≤◌, ◌∙◌, ap, some, u64_max, strip_prefix-append, codes}
use fusio.Decimal.{padded20}
use fusio.Decimal.RoundTrip.{parse_u64-padded20}
use fusio.Manifest.Checkpoints.{new, lsn, lsn_text}

-- The id that is made of a u64 LSN gives this LSN back.
pub lsn-new : (n : ℕ) → n ≤ u64_max → lsn (new n) ≡ some n
unfolding lsn new lsn_text
lsn-new n le =
    ap lsn_text (strip_prefix-append (codes "ckpt-") (padded20 n)) ∙ parse_u64-padded20 n le
