-- ===== src/Platform.antt =====
-- What the code takes from Python's standard library and does not implement: `hashlib.sha256` and
-- `datetime.fromisoformat`. Both are arbitrary functions here, and no law of theirs is assumed.
use dotmac_observability.Prelude.{ℕ, String, Option}

-- A `datetime`, in microseconds. A naive one has no offset, and cannot be subtracted from one that
-- has.
pub data Instant : Type 0 where
  naive : ℕ → Instant
  aware : ℕ → Instant

pub record Platform : Type 0 where
  -- The hexadecimal digest of a text's UTF-8 bytes.
  pub sha256 : String → String
  -- `none` is a `ValueError`.
  pub fromisoformat : String → Option Instant
