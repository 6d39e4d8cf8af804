-- ===== src/Server/Handler/Ownership/Ends.antt =====
-- A connection from its first message to its end, as the registries see it.
use vlgr.Prelude.{
  ℕ, ◌≡◌, ◌≢◌, refl, ◌∙◌, Bool, true, false, List, [], ◌∷◌, Option, none, some, arith, bytes_eq_iff,
  inl, inr, if◌then◌else◌,
}
use mathlib.Core.Option
use vlgr.Prelude.Assoc.{nat_key, bytes_key, lookup, lookup-insert, lookup-erase}
use vlgr.Prelude.Bytes.{get_be}
use vlgr.Prelude.Outcome.{Outcome-cases}
use vlgr.Protocol.Frames.{decode_frame}
use vlgr.Server.Registry.{Tunnel, Registry}
use vlgr.Server.Registry.Laws.{Owns, Owns-add, Owns-remove}
use vlgr.Server.Handler.State.{World, Env}
use vlgr.Server.Handler.Cleanup.{unregister_all, cleanup}
use vlgr.Server.Handler.Dispatch.{handle_message, run}
use vlgr.Server.Handler.Ownership.{
  unregister_all-none, unregister_all-others, lookup-unregister_all,
}
use vlgr.Server.Handler.Ownership.Moves.{
  Move, keep, add, remove, Quiet, Step, goes_on, ends, or_empty, handle_frame-Step,
}

pub record Owner (w : World) : Type 0 where
  pub http : Owns w.me w.tunnels w.registry
  pub tls : Owns w.me w.tls_tunnels (or_empty w.tls_registry)

-- The random id is not that of a tunnel which the handler already has. (The code does not test
-- this; 64 random bits make it all but certain.)
abbrev pub Fresh : Env → World → Type 0
Fresh env w =
    (b : List ℕ)
    → env.random_id ≡ some b
    → (lookup (get_be 0 b) w.tunnels ≡ none) × (lookup (get_be 0 b) w.tls_tunnels ≡ none)

abbrev pub FreshRun : World → List (Env × List ℕ) → Type 0
FreshRun w [] = Unit {0}
FreshRun w ((env, msg) ∷ rest) = Fresh env w × FreshRun (handle_message w env msg) rest

-- No message is read after one that closes the handler: none was buffered when it was handled.
abbrev pub EndsOnClose : World → List (Env × List ℕ) → Type 0
EndsOnClose w [] = Unit {0}
EndsOnClose w ((env, msg) ∷ rest) =
    ((handle_message w env msg).closed ≡ true → rest ≡ [])
    × EndsOnClose (handle_message w env msg) rest

-- The entries that do not name `me` are the same.
pub record SameOthers (me : ℕ) (r r' : Registry) : Type 0 where
  pub stays :
      (s : List ℕ) (t : Tunnel) → t.handler ≢ me → lookup s r ≡ some t → lookup s r' ≡ some t
  pub is_old :
      (s : List ℕ) (t : Tunnel) → t.handler ≢ me → lookup s r' ≡ some t → lookup s r ≡ some t

module _ {env : Env} {me : ℕ} {ts ts' : List (ℕ × Tunnel)} {r r' : Registry} where
  Move-Owns :
      ((b : List ℕ) → env.random_id ≡ some b → lookup (get_be 0 b) ts ≡ none)
      → Owns me ts r
      → Move env me ts ts' r r'
      → Owns me ts' r'
  Move-Owns fresh o (keep e f) = rw (e, f) o
  Move-Owns fresh o (add t b random id mine free e f) =
      rw (e, f) (Owns-add t o mine free (rw id (fresh b random)))
  Move-Owns fresh o (remove id t there e f) = rw (e, f) (Owns-remove id t o there)

  Move-SameOthers : Owns me ts r → Move env me ts ts' r r' → SameOthers me r r'
  Move-SameOthers o (keep e f) = rw f (record { stays = λ s t n h. h; is_old = λ s t n h. h })
  Move-SameOthers o (add t b random id mine free e f) = rw f (record {
    stays = λ s u n h. ground (arith, lookup-insert t.subdomain s t r, bytes_eq_iff t.subdomain s);
    is_old = λ s u n h. ground (arith, lookup-insert t.subdomain s t r);
  })
  Move-SameOthers o (remove id t there e f) = rw f (record {
    stays = λ s u n h.
        ground (arith, lookup-erase t.subdomain s r, o.held id t there, bytes_eq_iff t.subdomain s);
    is_old = λ s u n h. ground (arith, lookup-erase t.subdomain s r);
  })

SameOthers-unregister_all :
    {me : ℕ} {ts : List (ℕ × Tunnel)} {r : Registry}
    → Owns me ts r
    → SameOthers me r (unregister_all ts r)
SameOthers-unregister_all {me} {ts} {r} o = record {
  stays = λ s t n h. unregister_all-others me ts r s t o h n;
  is_old = λ s t n h. ground (arith, lookup-unregister_all s ts r);
}

SameOthers-trans :
    {me : ℕ} {r r' r'' : Registry} → SameOthers me r r' → SameOthers me r' r'' → SameOthers me r r''
SameOthers-trans a b = record {
  stays = λ s t n h. b.stays s t n (a.stays s t n h);
  is_old = λ s t n h. a.is_old s t n (b.is_old s t n h);
}

-- The connection is over: nothing in a registry names its handler, and the rest is as before.
pub record Gone (me : ℕ) (r r' : Registry) : Type 0 where
  pub none_left : (s : List ℕ) (t : Tunnel) → lookup s r' ≡ some t → t.handler ≢ me
  pub others : SameOthers me r r'

pub record Over (w w' : World) : Type 0 where
  pub closed : w'.closed ≡ true
  pub http : Gone w.me w.registry w'.registry
  pub tls : Gone w.me (or_empty w.tls_registry) (or_empty w'.tls_registry)

-- What holds while the connection lives, seen from its start `w`.
record Lives (w w' : World) : Type 0 where
  me : w'.me ≡ w.me
  closed : w'.closed ≡ false
  owner : Owner w'
  http : SameOthers w.me w.registry w'.registry
  tls : SameOthers w.me (or_empty w.tls_registry) (or_empty w'.tls_registry)

Gone-unregister_all :
    {me : ℕ} {ts : List (ℕ × Tunnel)} {r : Registry}
    → Owns me ts r
    → Gone me r (unregister_all ts r)
Gone-unregister_all {me} {ts} {r} o = record {
  none_left = λ s t h. unregister_all-none me ts r s t o h;
  others = SameOthers-unregister_all o;
}

Gone-map :
    {me : ℕ} {ts : List (ℕ × Tunnel)} (o : Option Registry)
    → Owns me ts (or_empty o)
    → Gone me (or_empty o) (or_empty (Option.map (unregister_all ts) o))
unfolding lookup
Gone-map (some r) o = Gone-unregister_all o
Gone-map none o = record {
  none_left = λ s t h. absurd (cc h);
  others = record { stays = λ s t n h. h; is_old = λ s t n h. h };
}

Over-if_open : {w x : World} (b : Bool) → b ≡ false → Over w x → Over w (if b then w else x)
Over-if_open true e o = absurd (cc e)
Over-if_open false e o = o

-- cleanup of a live connection
cleanup-Over : (w : World) → w.closed ≡ false → Owner w → Over w (cleanup w)
unfolding cleanup
cleanup-Over w open_ o = Over-if_open w.closed open_ (record {
  closed = refl;
  http = Gone-unregister_all o.http;
  tls = Gone-map w.tls_registry o.tls;
})

Over-if_closed :
    {w x : World} (y : World) (b : Bool) → b ≡ true → Over w x → Over w (if b then x else y)
Over-if_closed y true e o = o
Over-if_closed y false e o = absurd (cc e)

-- The deferred cleanup of a handler that is closed does nothing.
Over-cleanup : {w w' : World} → Over w w' → Over w (cleanup w')
unfolding cleanup
Over-cleanup {w} {w'} o = Over-if_closed _ w'.closed o.closed o

-- What a message leaves: the connection lives on, or it is over.
data Outlook (w w' : World) : Type 0 where
  lives : Lives w w' → Outlook w w'
  over : Over w w' → Outlook w w'

Owner-Quiet : {w v : World} → Quiet w v → Owner w → Owner v
Owner-Quiet {w} {v} q o = record {
  http = rw (q.me, q.tunnels, q.registry) o.http;
  tls = rw (q.me, q.tls_tunnels, q.tls_registry) o.tls;
}

Over-Quiet : {w v w' : World} → Quiet w v → Over v w' → Over w w'
Over-Quiet {w} {v} {w'} q o = record {
  closed = o.closed;
  http = rw (← q.me, ← q.registry) o.http;
  tls = rw (← q.me, ← q.tls_registry) o.tls;
}

Outlook-Step :
    {env : Env} {w w' : World}
    → w.closed ≡ false
    → Owner w
    → Fresh env w
    → Step env w w'
    → Outlook w w'
Outlook-Step {env} {w} {w'} open_ o fresh (goes_on me closed http tls) = lives (record {
  me = me;
  closed = closed ∙ open_;
  owner = record {
    http = rw me (Move-Owns (λ b e. (fresh b e).0) o.http http);
    tls = rw me (Move-Owns (λ b e. (fresh b e).1) o.tls tls);
  };
  http = Move-SameOthers o.http http;
  tls = Move-SameOthers o.tls tls;
})
Outlook-Step {env} {w} {w'} open_ o fresh (ends v q e) =
    over (rw e (Over-Quiet q (cleanup-Over v (q.closed ∙ open_) (Owner-Quiet q o))))

Lives-refl : (w : World) → w.closed ≡ false → Owner w → Lives w w
Lives-refl w open_ o = record {
  me = refl;
  closed = open_;
  owner = o;
  http = record { stays = λ s t n h. h; is_old = λ s t n h. h };
  tls = record { stays = λ s t n h. h; is_old = λ s t n h. h };
}

handle_message-Outlook :
    (w : World) (env : Env) (msg : List ℕ)
    → w.closed ≡ false
    → Owner w
    → Fresh env w
    → Outlook w (handle_message w env msg)
unfolding handle_message
handle_message-Outlook w env msg open_ o fresh = elim (Outcome-cases (decode_frame msg)) [
  | inr (e, d) ↦ rw (d, handle_message) (lives (Lives-refl w open_ o))
  | inl (frame, d) ↦
      rw (d, handle_message) (Outlook-Step open_ o fresh (handle_frame-Step w env frame))
]

Over-after : {w v w' : World} → Lives w v → Over v w' → Over w w'
Over-after {w} {v} {w'} l o = record {
  closed = o.closed;
  http = record {
    none_left = rw (← l.me) o.http.none_left;
    others = SameOthers-trans l.http (rw (← l.me) o.http.others);
  };
  tls = record {
    none_left = rw (← l.me) o.tls.none_left;
    others = SameOthers-trans l.tls (rw (← l.me) o.tls.others);
  };
}

-- From an open connection whose handler owns exactly the registry entries that name it, and that
-- draws no id of a tunnel which it has: when Run returns, whatever messages it read, if it read none
-- after one that closed the handler, then no entry of either registry names the handler, and the
-- entries of every other handler are exactly those from before.
pub run-Over :
    (w : World) (msgs : List (Env × List ℕ))
    → w.closed ≡ false
    → Owner w
    → FreshRun w msgs
    → EndsOnClose w msgs
    → Over w (run w msgs)
unfolding run
run-Over w [] open_ o fresh quiet = cleanup-Over w open_ o
run-Over w ((env, msg) ∷ rest) open_ o fresh quiet =
    elim (handle_message-Outlook w env msg open_ o fresh.0) [
      | over e ↦ rw (quiet.0 e.closed, run) (Over-cleanup e)
      | lives l ↦
          Over-after l (run-Over (handle_message w env msg) rest l.closed l.owner fresh.1 quiet.1)
    ]
