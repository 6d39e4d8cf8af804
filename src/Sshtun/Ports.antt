-- ===== src/Sshtun/Ports.antt =====
-- The ports of an SSH connection: what its forwards hold, and what it leaves behind.
use vlgr.Prelude.{
  ℕ, ◌%◌, ◌^◌, ◌≡◌, refl, ◌∙◌, Bool, true, false, not, ◌&&◌, ◌||◌, List, [], ◌∷◌, Option, none,
  some, arith, ◌==◌, bytes_eq, Bool-cases, if_elim, Option-cases, inl, inr,
}
use vlgr.Prelude.Bytes.{codes}
use vlgr.Prelude.Ids.{has_id, remove_id, has_id-remove_id}
use vlgr.Sshtun.{
  PortAllocator, BindReq, Request, Session, reply, listen_on, start_forward, cancel_port,
  cancel_forward, handle_request, handle_requests, close_all, close_forward, handle_global_requests,
}

-- What the server relies on: a granted port was not held, and a call changes no other port.
pub record Laws {S : Type 0} (pool : PortAllocator S) : Type 1 where
  pub Valid : S → Type 0
  pub held : S → ℕ → Bool
  pub allocate-Valid : (s : S) (p : ℕ) → Valid s → Valid (pool.allocate s p).0
  pub release-Valid : (s : S) (p : ℕ) → Valid s → Valid (pool.release s p)
  pub refuses :
      (s : S) (p q : ℕ)
      → Valid s
      → (pool.allocate s p).1 ≡ none
      → held (pool.allocate s p).0 q ≡ held s q
  pub grants :
      (s : S) (p port q : ℕ)
      → Valid s
      → (pool.allocate s p).1 ≡ some port
      → (held s port ≡ false) × (held (pool.allocate s p).0 q ≡ (port == q || held s q))
  pub releases :
      (s : S) (p q : ℕ) → Valid s → held (pool.release s p) q ≡ (not (p == q) && held s q)

-- The pool holds what it held before the connection and the ports of the forwards, the process
-- listens on what it listened on before and on the ports of the forwards, and no port is on both
-- sides.
record Holds {S : Type 0} {pool : PortAllocator S} (laws : Laws pool) (held₀ open₀ : ℕ → Bool)
    (s : Session S) : Type 0 where
  valid : laws.Valid s.alloc
  holds : (q : ℕ) → laws.held s.alloc q ≡ (has_id q s.forwards || held₀ q)
  listening : (q : ℕ) → has_id q s.listeners ≡ (has_id q s.forwards || open₀ q)
  apart : (q : ℕ) → (has_id q s.forwards && (held₀ q || open₀ q)) ≡ false

module _ {S : Type 0} (pool : PortAllocator S) (laws : Laws pool)
    (unmarshal : List ℕ → Option BindReq) (listens : ℕ → Bool) (held₀ open₀ : ℕ → Bool)
    (taken : (q : ℕ) → listens q ≡ true → open₀ q ≡ false) where
  reply-Holds :
      (s : Session S) (ok : Bool) (port : Option ℕ)
      → Holds laws held₀ open₀ s
      → Holds laws held₀ open₀ (reply pool unmarshal listens s ok port)
  reply-Holds s ok port h = record {
    valid = h.valid;
    holds = h.holds;
    listening = h.listening;
    apart = h.apart;
  }

  -- The state of the pool right after a port is granted.
  granted-Holds :
      (s s' : Session S) (req : Request) (port : ℕ)
      → Holds laws held₀ open₀ s
      → laws.Valid s'.alloc
      → laws.held s.alloc port ≡ false
      → ((q : ℕ) → laws.held s'.alloc q ≡ (port == q || laws.held s.alloc q))
      → s'.forwards ≡ s.forwards
      → s'.listeners ≡ s.listeners
      → Holds laws held₀ open₀ (listen_on pool unmarshal listens s' req port)
  unfolding listen_on has_id
  granted-Holds s s' req port h valid free held same same' = elim (Bool-cases (listens port)) [
    | inr e ↦
        rw (e, listen_on)
          (record {
            valid = laws.release-Valid s'.alloc port valid;
            holds = λ q. ground (
              arith,
              laws.releases s'.alloc port q valid,
              held q,
              h.holds q,
              h.holds port,
              same,
              free,
            );
            listening = λ q. cc (same, same', h.listening q);
            apart = λ q. cc (same, h.apart q);
          })
    | inl e ↦
        let s'' : Session S = record s' {
          forwards = port ∷ remove_id port s'.forwards;
          listeners = port ∷ s'.listeners;
        } in
        let h'' : Holds laws held₀ open₀ s'' = record {
          valid = valid;
          holds = λ q. ground (arith, held q, h.holds q, same, has_id-remove_id q port s'.forwards);
          listening =
              λ q. ground (arith, h.listening q, same, same', has_id-remove_id q port s'.forwards);
          apart = λ q. ground (
            arith,
            h.apart q,
            h.holds port,
            same,
            free,
            taken port e,
            has_id-remove_id q port s'.forwards,
          );
        } in
        rw (e, listen_on)
          (if_elim (Holds laws held₀ open₀) req.want_reply _ _
            (reply-Holds s'' true (some port) h'') h'')
  ]

  start_forward-Holds :
      (s : Session S) (req : Request)
      → Holds laws held₀ open₀ s
      → Holds laws held₀ open₀ (start_forward pool unmarshal listens s req)
  unfolding start_forward
  start_forward-Holds s req h = elim (Option-cases (unmarshal req.payload)) [
    | inl e ↦ rw (e, start_forward) (reply-Holds s false none h)
    | inr (b, e) ↦
        let p = b.port % 2 ^ 16 in
        let valid = laws.allocate-Valid s.alloc p h.valid in
        elim (Option-cases (pool.allocate s.alloc p).1) [
          | inl d ↦
              rw (e, start_forward)
                (rw (d, start_forward)
                  (record {
                    valid = valid;
                    holds = λ q. laws.refuses s.alloc p q h.valid d ∙ h.holds q;
                    listening = h.listening;
                    apart = h.apart;
                  }))
          | inr (port, d) ↦
              rw (e, start_forward)
                (rw (d, start_forward)
                  (granted-Holds s _ req port h valid (laws.grants s.alloc p port 0 h.valid d).0
                    (λ q. (laws.grants s.alloc p port q h.valid d).1) refl refl))
        ]
  ]

  cancel_port-Holds :
      (s : Session S) (port : ℕ)
      → Holds laws held₀ open₀ s
      → Holds laws held₀ open₀ (cancel_port pool unmarshal listens s port)
  unfolding cancel_port
  cancel_port-Holds s port h = elim (Bool-cases (has_id port s.forwards)) [
    | inr e ↦ rw (e, cancel_port) h
    | inl e ↦
        rw (e, cancel_port)
          (record {
            valid = laws.release-Valid s.alloc port h.valid;
            holds = λ q. ground (
              arith,
              laws.releases s.alloc port q h.valid,
              h.holds q,
              h.apart port,
              e,
              has_id-remove_id q port s.forwards,
            );
            listening = λ q. ground (
              arith,
              h.listening q,
              h.apart port,
              e,
              has_id-remove_id q port s.forwards,
              has_id-remove_id q port s.listeners,
            );
            apart = λ q. ground (arith, h.apart q, has_id-remove_id q port s.forwards);
          })
  ]

  cancel_forward-Holds :
      (s : Session S) (req : Request)
      → Holds laws held₀ open₀ s
      → Holds laws held₀ open₀ (cancel_forward pool unmarshal listens s req)
  unfolding cancel_forward
  cancel_forward-Holds s req h = elim (Option-cases (unmarshal req.payload)) [
    | inl e ↦
        rw (e, cancel_forward)
          (if_elim (Holds laws held₀ open₀) req.want_reply _ _ (reply-Holds s true none h) h)
    | inr (b, e) ↦
        let h' = cancel_port-Holds s (b.port % 2 ^ 16) h in
        rw (e, cancel_forward)
          (if_elim (Holds laws held₀ open₀) req.want_reply _ _ (reply-Holds _ true none h') h')
  ]

  handle_request-Holds :
      (s : Session S) (req : Request)
      → Holds laws held₀ open₀ s
      → Holds laws held₀ open₀ (handle_request pool unmarshal listens s req)
  unfolding handle_request
  handle_request-Holds s req h =
      let P = Holds laws held₀ open₀ in
      if_elim P (bytes_eq req.type (codes "tcpip-forward")) _ _ (start_forward-Holds s req h) (
        if_elim P (bytes_eq req.type (codes "cancel-tcpip-forward")) _ _
          (cancel_forward-Holds s req h)
          (if_elim P req.want_reply _ _ (reply-Holds s false none h) h))

  handle_requests-Holds :
      (reqs : List Request) (s : Session S)
      → Holds laws held₀ open₀ s
      → Holds laws held₀ open₀ (handle_requests pool unmarshal listens s reqs)
  unfolding handle_requests
  handle_requests-Holds [] s h = h
  handle_requests-Holds (req ∷ reqs) s h =
      handle_requests-Holds reqs _ (handle_request-Holds s req h)

  -- Closing some ports: what is left is what is held and open besides them.
  close_all-left :
      (ports : List ℕ) (s : Session S) (q : ℕ)
      → laws.Valid s.alloc
      → (laws.held (close_all pool unmarshal listens s ports).alloc q
          ≡ (not (has_id q ports) && laws.held s.alloc q))
        × (has_id q (close_all pool unmarshal listens s ports).listeners
            ≡ (not (has_id q ports) && has_id q s.listeners))
  unfolding close_all has_id
  close_all-left [] s q valid = (refl, refl)
  close_all-left (port ∷ ports) s q valid =
      let s' : Session S = close_forward pool unmarshal listens s port in
      let (a, b) = close_all-left ports s' q (laws.release-Valid s.alloc port valid) in
      (
        ground (arith, a, laws.releases s.alloc port q valid),
        ground (arith, b, has_id-remove_id q port s.listeners),
      )

-- A connection leaves nothing behind: after any requests and its end, the pool holds exactly the
-- ports that it held before, and the process listens on exactly the ports that it listened on
-- before. The pool keeps its laws, and net.Listen fails on a port that the process listens on.
pub handle_global_requests-left :
    {S : Type 0} (pool : PortAllocator S) (laws : Laws pool) (unmarshal : List ℕ → Option BindReq)
    (listens : ℕ → Bool) (alloc : S) (listeners : List ℕ) (reqs : List Request) (q : ℕ)
    → laws.Valid alloc
    → ((p : ℕ) → listens p ≡ true → has_id p listeners ≡ false)
    → (laws.held (handle_global_requests pool unmarshal listens alloc listeners reqs).alloc q
        ≡ laws.held alloc q)
      × (has_id q (handle_global_requests pool unmarshal listens alloc listeners reqs).listeners
          ≡ has_id q listeners)
unfolding handle_global_requests has_id
handle_global_requests-left pool laws unmarshal listens alloc listeners reqs q valid taken =
    let held₀ : ℕ → Bool = λ p. laws.held alloc p in
    let open₀ : ℕ → Bool = λ p. has_id p listeners in
    let s =
      handle_requests pool unmarshal listens
        (record { alloc = alloc; forwards = []; listeners = listeners; replies = [] }) reqs in
    let h : Holds laws held₀ open₀ s =
      handle_requests-Holds pool laws unmarshal listens held₀ open₀ taken reqs _
        (record { valid = valid; holds = λ p. refl; listening = λ p. refl; apart = λ p. refl }) in
    let (a, b) =
      close_all-left pool laws unmarshal listens held₀ open₀ taken s.forwards s q h.valid in
    (ground (arith, a, h.holds q, h.apart q), ground (arith, b, h.listening q, h.apart q))
