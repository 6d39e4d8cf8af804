-- ===== src/Server/Handler/Requests/Pending.antt =====
-- h.pending and the store of its requests after a deletion and after a change.
use vlgr.Prelude.{
  ℕ, ◌≡◌, not, ◌&&◌, List, [], ◌∷◌, arith, ◌==◌, Option-cases, inl, inr, if◌then◌else◌,
}
use mathlib.Core.Option
use vlgr.Prelude.Assoc.{nat_key, lookup, lookup-insert}
use vlgr.Server.Handler.State.{PendingReq}
use vlgr.Server.Handler.Cleanup.{update_request}
use vlgr.Server.Handler.Requests.{is_pending, without}

pub is_pending-without :
    (i id : ℕ) (ids : List ℕ) → is_pending i (without id ids) ≡ (not (id == i) && is_pending i ids)
unfolding is_pending without
is_pending-without i id [] = ground arith
is_pending-without i id (j ∷ ids) = ground (arith, is_pending-without i id ids)

pub lookup-update_request :
    (i id : ℕ) (f : PendingReq → PendingReq) (store : List (ℕ × PendingReq))
    → lookup i (update_request id f store)
      ≡ (if id == i then Option.map f (lookup i store) else lookup i store)
unfolding update_request
lookup-update_request i id f store = elim (Option-cases (lookup id store)) [
  | inl e ↦ rw (e, update_request) (ground (arith, e))
  | inr (pr, e) ↦ rw (e, update_request) (ground (arith, e, lookup-insert id i (f pr) store))
]
