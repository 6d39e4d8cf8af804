-- ===== src/Protocol/Wire.antt =====
-- internal/protocol/protocol.go: binary.Read of an integer, writeString and readString.
-- A bytes.Reader is the list of the bytes that are still unread; a writer returns the bytes that
-- it appends to its buffer.
pub mod Laws
use vlgr.Prelude.{ℕ, List, ◌++◌, length, take, drop, ltb, if◌then◌else◌}
use vlgr.Prelude.Outcome.{Outcome, ok, err, ◌>>=◌, ◌>>◌, refuse_if}
use vlgr.Prelude.Bytes.{put_be, get_be}
use vlgr.Protocol.{Error, eof, string_too_long, string_truncated, max_string_len}

abbrev pub Read {ℓ} : Type ℓ → Type ℓ
Read A = Outcome Error (A × List ℕ)

-- binary.Read of a big-endian integer of `w` bytes, which io.ReadFull fetches
unfoldable pub read_uint : ℕ → List ℕ → Read ℕ
read_uint w r = if ltb (length r) w then err eof else ok (get_be 0 (take w r), drop w r)

unfoldable pub write_string : List ℕ → Outcome Error (List ℕ)
write_string s = do
  refuse_if (ltb max_string_len (length s)) string_too_long
  ok (put_be 2 (length s) ++ s)

unfoldable pub read_string : List ℕ → Read (List ℕ)
read_string r = do
  (n, rest) ← read_uint 2 r
  refuse_if (ltb (length rest) n) string_truncated
  ok (take n rest, drop n rest)
