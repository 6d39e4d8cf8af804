-- ===== src/SelfUpdate.antt =====
-- internal/selfupdate/selfupdate.go: which release is newer than the one that runs.
pub mod Order
pub mod Install
use vlgr.Prelude.{
  ℕ, zero, suc, ◌+◌, ◌-◌, ◌*◌, ◌^◌, Bool, true, false, ◌&&◌, List, [], ◌∷◌, Option, none, some,
  length, ltb, leb, ◌==◌, bytes_eq, if◌then◌else◌,
}
use vlgr.Prelude.Text.{split, trim_prefix_byte}

unfoldable pub is_digit : ℕ → Bool
is_digit c = leb b'0' c && leb c b'9'

-- s[:j]
unfoldable pub leading_digits : List ℕ → List ℕ
unfolding is_digit
leading_digits [] = []
leading_digits (c ∷ cs) = let rest = leading_digits cs in if is_digit c then c ∷ rest else []

-- The number that digits stand for, behind those that `n` stands for.
unfoldable pub decimal_value : ℕ → List ℕ → ℕ
decimal_value n [] = n
decimal_value n (c ∷ cs) = decimal_value (n * 10 + (c - b'0')) cs

-- strconv.Atoi of digits, on a 64-bit int; `none` stands for the -1 of numAt.
unfoldable pub atoi : List ℕ → Option ℕ
unfolding decimal_value
atoi [] = none
atoi (c ∷ cs) =
    if leb (2 ^ 63) (decimal_value 0 (c ∷ cs)) then none else some (decimal_value 0 (c ∷ cs))

unfoldable pub num_at : List (List ℕ) → ℕ → Option ℕ
unfolding atoi leading_digits
num_at [] i = some 0
num_at (s ∷ parts) zero = atoi (leading_digits s)
num_at (s ∷ parts) (suc i) = num_at parts i

-- The body of the loop of newer at one index: the result, unless the loop goes on.
unfoldable pub compare_at : Option ℕ → Option ℕ → Bool → Bool
compare_at c none rest = false
compare_at none (some l) rest = true
compare_at (some c) (some l) rest = if l == c then rest else ltb c l

-- The loop of newer from the index i on, with k rounds left.
unfoldable pub newer_from : List (List ℕ) → List (List ℕ) → ℕ → ℕ → Bool
unfolding num_at compare_at
newer_from cur lat zero i = false
newer_from cur lat (suc k) i =
    let rest = newer_from cur lat k (suc i) in compare_at (num_at cur i) (num_at lat i) rest

abbrev pub rounds : ℕ → ℕ → ℕ
rounds a b = if ltb a b then b else a

unfoldable pub newer : List ℕ → List ℕ → Bool
unfolding newer_from split trim_prefix_byte bytes_eq
newer current latest =
    if bytes_eq latest current
    then false
    else let cur = split b'.' (trim_prefix_byte b'v' current) in
      let lat = split b'.' (trim_prefix_byte b'v' latest) in
      newer_from cur lat (rounds (length cur) (length lat)) 0
