-- ===== src/Prelude/Bytes.antt =====
-- Byte strings and encoding/binary's big-endian integers of `w` bytes.
use Prim.Native.Nat.{ℕ, zero, suc, ◌+◌, ◌*◌, ◌/◌, ◌%◌, ◌^◌, ◌<◌}
use Prim.Native.Char.{code}
use Prim.Native.String.{String}
use mathlib.Core.Path.{◌≡◌, refl, ap, subst, ◌∙◌}
use mathlib.Core.List.{List, [], ◌∷◌, ◌++◌}
use native.Mathlib.Nat.{pow-suc}
use native.Mathlib.Omega.{arith}
use vlgr.Prelude.Lists.{length, length-append, All, All-append}

-- The bytes of a text literal, which is ASCII everywhere.
abbrev pub codes : String → List ℕ
codes String.[] = []
codes (String.◌∷◌ c s) = code c ∷ codes s

abbrev pub IsByte : ℕ → Type 0
IsByte b = b < 256

-- PutUint16 (w = 2), PutUint32 (4), PutUint64 (8); the high bytes of a wider number are lost.
unfoldable pub put_be : ℕ → ℕ → List ℕ
put_be zero n = []
put_be (suc w) n = put_be w (n / 256) ++ (n % 256) ∷ []

-- Uint16, Uint32, Uint64 of a slice, whose length is the width.
unfoldable pub get_be : ℕ → List ℕ → ℕ
get_be acc [] = acc
get_be acc (b ∷ bs) = get_be (acc * 256 + b) bs

pub length-put_be : (w n : ℕ) → length (put_be w n) ≡ w
unfolding put_be
length-put_be zero n = refl
length-put_be (suc w) n =
    length-append (put_be w (n / 256)) _ ∙ omega (arith, length-put_be w (n / 256))

pub put_be-IsByte : (w n : ℕ) → All IsByte (put_be w n)
unfolding put_be
put_be-IsByte zero n = tt
put_be-IsByte (suc w) n =
    All-append IsByte (put_be w (n / 256)) _ (put_be-IsByte w (n / 256)) (omega arith, tt)

get_be-append : (acc b : ℕ) (xs : List ℕ) → get_be acc (xs ++ b ∷ []) ≡ get_be acc xs * 256 + b
unfolding get_be
get_be-append acc b [] = refl
get_be-append acc b (x ∷ xs) = get_be-append (acc * 256 + x) b xs

pub get_be-put_be : (w n : ℕ) → n < 256 ^ w → get_be 0 (put_be w n) ≡ n
unfolding put_be
get_be-put_be zero n h = unfold get_be in omega arith
get_be-put_be (suc w) n h =
    get_be-append 0 (n % 256) (put_be w (n / 256))
    ∙ omega (arith, get_be-put_be w (n / 256) (omega (arith, pow-suc 256 w)))

-- The last byte split off, for reading from the right.
snoc_view : (x : ℕ) (xs : List ℕ) → (ys : List ℕ) × (y : ℕ) × (x ∷ xs ≡ ys ++ y ∷ [])
snoc_view x [] = ([], x, refl)
snoc_view x (z ∷ zs) = let (ys, y, e) = snoc_view z zs in (x ∷ ys, y, rw e)

All-prefix {κ} : (P : ℕ → Type κ) (xs ys : List ℕ) → All P (xs ++ ys) → All P xs × All P ys
All-prefix P [] ys h = (tt, h)
All-prefix P (x ∷ xs) ys h = let (a, b) = All-prefix P xs ys h.1 in ((h.0, a), b)

-- Bytes read as a number are what `put_be` writes at their width.
pub put_be-get_be :
    (w : ℕ) (xs : List ℕ) → length xs ≡ w → All IsByte xs → put_be w (get_be 0 xs) ≡ xs
unfolding put_be
put_be-get_be zero [] h b = refl
put_be-get_be zero (x ∷ xs) h b = absurd (omega arith)
put_be-get_be (suc w) [] h b = absurd (omega arith)
put_be-get_be (suc w) (x ∷ xs) h b =
    let (ys, y, e) = snoc_view x xs in
    let (by, ye) = All-prefix IsByte ys (y ∷ []) (subst (All IsByte) e b) in
    let len : length ys ≡ w = omega (arith, ap length e, length-append ys (y ∷ [])) in
    let q : get_be 0 (ys ++ y ∷ []) / 256 ≡ get_be 0 ys = omega (arith, get_be-append 0 y ys) in
    let m : get_be 0 (ys ++ y ∷ []) % 256 ≡ y = omega (arith, get_be-append 0 y ys) in
    rw (e, q, m, put_be-get_be w ys len by)

pub get_be-lt : (w : ℕ) (xs : List ℕ) → length xs ≡ w → All IsByte xs → get_be 0 xs < 256 ^ w
get_be-lt zero [] h b = unfold get_be in omega arith
get_be-lt zero (x ∷ xs) h b = absurd (omega arith)
get_be-lt (suc w) [] h b = absurd (omega arith)
get_be-lt (suc w) (x ∷ xs) h b =
    let (ys, y, e) = snoc_view x xs in
    let (by, ye) = All-prefix IsByte ys (y ∷ []) (subst (All IsByte) e b) in
    let len : length ys ≡ w = omega (arith, ap length e, length-append ys (y ∷ [])) in
    rw e (omega (arith, get_be-append 0 y ys, get_be-lt w ys len by, pow-suc 256 w, ye.0))
