-- ===== src/SelfUpdate/Order.antt =====
-- The order of releases.
use vlgr.Prelude.{
  ℕ, zero, suc, ◌≡◌, refl, Bool, true, false, List, Option, none, some, arith, length, ◌==◌,
  bytes_eq, Bool-cases, inl, inr,
}
use vlgr.Prelude.Text.{split, trim_prefix_byte}
use vlgr.SelfUpdate.{num_at, compare_at, newer_from, newer, rounds}

compare_at-asymmetric :
    (c l : Option ℕ) (rest rest' : Bool)
    → (rest ≡ true → rest' ≡ false)
    → compare_at c l rest ≡ true
    → compare_at l c rest' ≡ false
unfolding compare_at
compare_at-asymmetric none none rest rest' ih h = absurd (cc h)
compare_at-asymmetric (some c) none rest rest' ih h = absurd (cc h)
compare_at-asymmetric none (some l) rest rest' ih h = refl
compare_at-asymmetric (some c) (some l) rest rest' ih h = elim (Bool-cases (l == c)) [
  | inl e ↦ ground (arith, h, e, ih (ground (arith, h, e)))
  | inr e ↦ ground (arith, h, e)
]

newer_from-asymmetric :
    (a b : List (List ℕ)) (k i : ℕ) → newer_from a b k i ≡ true → newer_from b a k i ≡ false
unfolding newer_from
newer_from-asymmetric a b zero i h = absurd (cc h)
newer_from-asymmetric a b (suc k) i h =
    compare_at-asymmetric (num_at a i) (num_at b i) _ _ (newer_from-asymmetric a b k (suc i)) h

rounds_comm : (a b : ℕ) → rounds a b ≡ rounds b a
rounds_comm a b = ground arith

-- Of two releases at most one is newer than the other, whatever their tags are: an update to a
-- release is never followed by an update back.
pub newer-asymmetric : (a b : List ℕ) → newer a b ≡ true → newer b a ≡ false
unfolding newer
newer-asymmetric a b h = elim (Bool-cases (bytes_eq a b)) [
  | inl e ↦ rw e refl
  | inr e ↦
      let as_ = split b'.' (trim_prefix_byte b'v' a) in
      let bs = split b'.' (trim_prefix_byte b'v' b) in
      rw (e, rounds_comm (length bs) (length as_))
        (newer_from-asymmetric as_ bs (rounds (length as_) (length bs)) 0 (ground (arith, h)))
]
