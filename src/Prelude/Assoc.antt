-- ===== src/Prelude/Assoc.antt =====
-- Go maps as association lists, in one order of iteration. The keys come with a Boolean test
-- that decides equality.
use mathlib.Core.Path.{◌≡◌, refl}
use mathlib.Core.Logic.{◌↔◌, inl, inr}
use mathlib.Core.Bool.{Bool, true}
use mathlib.Core.Option.{Option, none, some}
use mathlib.Core.List.{List, [], ◌∷◌, ◌++◌}
use native.Mathlib.Omega.{arith}
use vlgr.Prelude.Lists.{All, length}
use vlgr.Prelude.Tests.{Bool-cases, if◌then◌else◌, ◌==◌, bytes_eq, bytes_eq_iff}
use Prim.Native.Nat.{ℕ, ◌+◌, ◌≤◌}

pub record Key {ℓ} (K : Type ℓ) : Type ℓ where
  pub same : K → K → Bool
  pub same_iff : (a b : K) → (same a b ≡ true) ↔ (a ≡ b)

pub nat_same_iff : (a b : ℕ) → ((a == b) ≡ true) ↔ (a ≡ b)
nat_same_iff a b = ground arith

instance abbrev pub nat_key : Key ℕ
nat_key = record { same = ◌==◌; same_iff = nat_same_iff }

instance abbrev pub bytes_key : Key (List ℕ)
bytes_key = record { same = bytes_eq; same_iff = bytes_eq_iff }

pub same_refl {ℓ} : {K : Type ℓ} ⦃k : Key K⦄ (a : K) → k.same a a ≡ true
same_refl ⦃k⦄ a = (k.same_iff a a).1 refl

module _ {ℓ κ} {K : Type ℓ} {V : Type κ} ⦃k : Key K⦄ where
  -- m[key]
  unfoldable pub lookup : K → List (K × V) → Option V
  lookup a [] = none
  lookup a ((b, v) ∷ m) = if k.same b a then some v else lookup a m

  -- m[key] = v: the place of an old binding is kept
  unfoldable pub insert : K → V → List (K × V) → List (K × V)
  insert a v [] = (a, v) ∷ []
  insert a v ((b, w) ∷ m) = if k.same b a then (a, v) ∷ m else (b, w) ∷ insert a v m

  -- delete(m, key)
  unfoldable pub erase : K → List (K × V) → List (K × V)
  erase a [] = []
  erase a ((b, w) ∷ m) = if k.same b a then erase a m else (b, w) ∷ erase a m

  pub lookup-insert :
      (a b : K) (v : V) (m : List (K × V))
      → lookup b (insert a v m) ≡ (if k.same a b then some v else lookup b m)
  unfolding lookup insert
  lookup-insert a b v [] = refl
  lookup-insert a b v ((c, w) ∷ m) =
      ground (arith, k.same_iff a b, k.same_iff c a, k.same_iff c b, lookup-insert a b v m)

  pub lookup-erase :
      (a b : K) (m : List (K × V))
      → lookup b (erase a m) ≡ (if k.same a b then none else lookup b m)
  unfolding lookup erase
  lookup-erase a b [] = ground arith
  lookup-erase a b ((c, w) ∷ m) =
      ground (arith, k.same_iff a b, k.same_iff c a, k.same_iff c b, lookup-erase a b m)

  -- No key stands twice, as in a Go map.
  abbrev pub IsMap : List (K × V) → Type κ
  IsMap [] = Unit
  IsMap ((a, v) ∷ m) = (lookup a m ≡ none) × IsMap m

  pub lookup-append :
      (a : K) (m n : List (K × V))
      → lookup a (m ++ n) ≡ elim (lookup a m) [ none ↦ lookup a n | some v ↦ some v ]
  unfolding lookup
  lookup-append a [] n = refl
  lookup-append a ((b, v) ∷ m) n = ground (arith, lookup-append a m n)

  -- In a map the keys in front of a binding are other keys.
  pub lookup_front :
      (m : List (K × V)) (a : K) (v : V) (n : List (K × V))
      → IsMap (m ++ (a, v) ∷ n)
      → lookup a m ≡ none
  unfolding lookup
  lookup_front [] a v n h = refl
  lookup_front ((b, w) ∷ m) a v n h = ground (
    arith,
    lookup-append b m ((a, v) ∷ n),
    lookup_front m a v n h.1,
    k.same_iff a b,
    k.same_iff b a,
    k.same_iff a a,
  )

  pub insert_fresh :
      (a : K) (v : V) (m : List (K × V)) → lookup a m ≡ none → insert a v m ≡ m ++ (a, v) ∷ []
  unfolding lookup insert
  insert_fresh a v [] h = refl
  insert_fresh a v ((b, w) ∷ m) h = ground (arith, insert_fresh a v m)

  pub insert-IsMap : (a : K) (v : V) (m : List (K × V)) → IsMap m → IsMap (insert a v m)
  unfolding lookup insert
  insert-IsMap a v [] h = (refl, tt)
  insert-IsMap a v ((b, w) ∷ m) h = elim (Bool-cases (k.same b a)) [
    | inl e ↦ rw e (rw (← (k.same_iff b a).0 e) h.0, h.1)
    | inr e ↦ rw e (
      ground (arith, lookup-insert a b v m, k.same_iff a b, k.same_iff b a, h.0),
      insert-IsMap a v m h.1,
    )
  ]

  pub All-insert {μ} :
      (P : K × V → Type μ) (a : K) (v : V) (m : List (K × V))
      → P (a, v)
      → All P m
      → All P (insert a v m)
  unfolding insert
  All-insert P a v [] p h = (p, tt)
  All-insert P a v ((b, w) ∷ m) p h = elim (Bool-cases (k.same b a)) [
    | inl e ↦ rw e (p, h.1)
    | inr e ↦ rw e (h.0, All-insert P a v m p h.1)
  ]

  pub length-insert-le : (a : K) (v : V) (m : List (K × V)) → length (insert a v m) ≤ length m + 1
  unfolding insert
  length-insert-le a v [] = omega arith
  length-insert-le a v ((b, w) ∷ m) = ground (arith, length-insert-le a v m)

  pub erase-IsMap : (a : K) (m : List (K × V)) → IsMap m → IsMap (erase a m)
  unfolding erase
  erase-IsMap a [] h = tt
  erase-IsMap a ((b, w) ∷ m) h = elim (Bool-cases (k.same b a)) [
    | inl e ↦ rw e (erase-IsMap a m h.1)
    | inr e ↦ rw e (ground (arith, lookup-erase a b m, h.0), erase-IsMap a m h.1)
  ]
