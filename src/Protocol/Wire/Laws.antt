-- ===== src/Protocol/Wire/Laws.antt =====
-- Reading back what was written, and what reading leaves.
use vlgr.Prelude.{
  ℕ, ◌+◌, ◌≤◌, ◌<◌, ◌^◌, ◌≡◌, refl, List, ◌++◌, arith, length, length-append, length-drop,
  length-take, take, drop, take-append, drop-append, le→ltb,
}
use vlgr.Prelude.Outcome.{ok}
use vlgr.Prelude.Bytes.{put_be, get_be, length-put_be, get_be-put_be}
use vlgr.Protocol.{max_string_len}
use vlgr.Protocol.Wire.{read_uint, write_string, read_string}
use mathlib.Core.List.{append_assoc}

pub read_uint-put_be :
    (w n : ℕ) (rest : List ℕ) → n < 256 ^ w → read_uint w (put_be w n ++ rest) ≡ ok (n, rest)
unfolding read_uint
read_uint-put_be w n rest h = rw (
  le→ltb (length (put_be w n ++ rest)) w long,
  take-append w (put_be w n) rest (length-put_be w n),
  drop-append w 0 (put_be w n) rest (omega (arith, length-put_be w n)),
  get_be-put_be w n h,
)
  where
    long : w ≤ length (put_be w n ++ rest)
    long = omega (arith, length-append (put_be w n) rest, length-put_be w n)

-- A string of at most 65535 bytes is written as its length and its bytes.
pub write_string_fits :
    (s : List ℕ) → length s ≤ max_string_len → write_string s ≡ ok (put_be 2 (length s) ++ s)
unfolding write_string
write_string_fits s h = rw (le→ltb max_string_len (length s) h)

pub read_string-put_be :
    (s rest : List ℕ)
    → length s ≤ max_string_len
    → read_string ((put_be 2 (length s) ++ s) ++ rest) ≡ ok (s, rest)
unfolding read_string
read_string-put_be s rest h = rw (
  append_assoc (put_be 2 (length s)) s rest,
  read_uint-put_be 2 (length s) (s ++ rest) (omega arith),
  le→ltb (length (s ++ rest)) (length s) (omega (arith, length-append s rest)),
  take-append (length s) s rest refl,
  drop-append (length s) 0 s rest (omega arith),
)

-- Writing succeeds on short strings only, and nothing but the length and the bytes is written.
pub write_string_inv :
    (s b : List ℕ)
    → write_string s ≡ ok b
    → (length s ≤ max_string_len) × (b ≡ put_be 2 (length s) ++ s)
unfolding write_string
write_string_inv s b h = ground arith

pub read_string-write_string :
    (s b rest : List ℕ) → write_string s ≡ ok b → read_string (b ++ rest) ≡ ok (s, rest)
read_string-write_string s b rest h =
    let (fits, e) = write_string_inv s b h in rw e (read_string-put_be s rest fits)

-- A successful read consumes its bytes: the value fits the width, and the rest is shorter.
pub read_uint_takes :
    (w n : ℕ) (r rest : List ℕ)
    → read_uint w r ≡ ok (n, rest)
    → (w ≤ length r) × (n ≡ get_be 0 (take w r)) × (rest ≡ drop w r)
unfolding read_uint
read_uint_takes w n r rest h = ground arith

pub read_string_takes :
    (s r rest : List ℕ) → read_string r ≡ ok (s, rest) → length r ≡ 2 + length s + length rest
unfolding read_string read_uint
read_string_takes s r rest h = ground (
  arith,
  length-drop 2 r,
  length-take (get_be 0 (take 2 r)) (drop 2 r),
  length-drop (get_be 0 (take 2 r)) (drop 2 r),
)
