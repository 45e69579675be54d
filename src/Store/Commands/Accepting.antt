-- ===== src/Store/Commands/Accepting.antt =====
-- packages/bridge/src/core/store.ts: accepting a command, once and again.
use pi_mob.Prelude.{
  ℕ, ◌≡◌, refl, Option, none, some, List, [], ◌∷◌, ◌++◌, ◌==◌, if◌then◌else◌, has, Result, ok, err,
  Bool-cases, inl, inr, ap, ◌∙◌,
}
use pi_mob.Tables.{StoredEvent, StoredCommand, accepted, command_state, Lease, controller_state}
use pi_mob.Store.{Store, Fault, conclude, StoreErrorCode, readonly, store_error, broken_constraint}
use pi_mob.Store.Transactions.{Keeps, Ends, bind-Ends, then-Ends, transaction-cases}
use pi_mob.Store.Journal.{append_event_tx}
use pi_mob.Store.Journal.Append.{IsFramed, append_event_tx-IsFramed}
use pi_mob.Store.Leases.{LeaseMutation, apply_lease_mutation_tx}
use pi_mob.Store.Leases.Frame.{IsLeaseFramed, apply_lease_mutation_tx-IsLeaseFramed}
use pi_mob.Store.Commands.{
  command, CommandInput, Uuids, AcceptCommandResult, accepted_command, duplicate_command,
  conflict_command, mutate_lease_tx, insert_command_tx, insert_new_tx, controller_event_tx,
  new_command, accept_new_tx, accept_found, accept_command, has_stream, lease_facts,
}

module _ (cs : List StoredCommand) (now : ℕ) where
  abbrev Is : Store → Type 0
  Is t = (t.commands ≡ cs) × (t.now ≡ now)

  lease-Is :
      (o : Option LeaseMutation) (id : ℕ) (s : Store)
      → Is s
      → Ends (λ t l. Is t) (mutate_lease_tx o id s)
  unfolding mutate_lease_tx
  lease-Is none id s h = h
  lease-Is (some m) id s h =
      go (apply_lease_mutation_tx m id s) (apply_lease_mutation_tx-IsLeaseFramed m id s)
    where
      go :
          (o : Result Fault (Store × Option Lease))
          → Keeps (IsLeaseFramed s) o
          → Ends (λ t l. Is t) o
      go (ok (t, l)) k = (ap (λ (u : Store). u.commands) k ∙ h.0, ap (λ (u : Store). u.now) k ∙ h.1)
      go (err f) k = tt

  event-Is :
      (o : Result Fault (Store × StoredEvent)) (s : Store)
      → Is s
      → Keeps (IsFramed s) o
      → Ends (λ t e. Is t) o
  event-Is (ok (t, e)) s h k =
      (ap (λ (u : Store). u.commands) k ∙ h.0, ap (λ (u : Store). u.now) k ∙ h.1)
  event-Is (err f) s h k = tt

  controller-Is :
      (c : CommandInput) (o : Option LeaseMutation) (l : Option Lease) (id : ℕ) (s : Store)
      → Is s
      → Ends (λ t u. Is t) (controller_event_tx c o l id s)
  unfolding controller_event_tx
  controller-Is c none l id s h = h
  controller-Is c (some m) l id s h =
      go (append_event_tx c.stream_id (controller_state c.scope_key (lease_facts l)) id s) (
        event-Is (append_event_tx c.stream_id (controller_state c.scope_key (lease_facts l)) id s) s
          h
          (append_event_tx-IsFramed c.stream_id (controller_state c.scope_key (lease_facts l)) id
            s))
    where
      go :
          (o : Result Fault (Store × StoredEvent))
          → Ends (λ t e. Is t) o
          → Ends (λ t u. Is t) (elim o [ err f ↦ err f | ok (t, e) ↦ ok (t, tt {0}) ])
      go (ok (t, e)) k = k
      go (err f) k = tt

insert-Is :
    (cs : List StoredCommand) (now : ℕ) (c : CommandInput) (s : Store)
    → Is cs now s
    → Ends (λ t u. Is (cs ++ (new_command c now ∷ [])) now t) (insert_new_tx c s)
unfolding insert_new_tx insert_command_tx
insert-Is cs now c s (h, k) =
    elim (Bool-cases (has (λ o. o.command_id == c.command_id) s.commands)) [
      | inl e ↦ rw (e, Ends) tt
      | inr e ↦ elim (Bool-cases (has_stream c.stream_id s)) [
        | inl f ↦ rw (e, f, Ends) (rw (h, k) refl, k)
        | inr f ↦ rw (e, f, Ends) tt
      ]
    ]

-- What an acceptance leaves: its row behind the others, `accepted` and not dispatched.
abbrev pub Accepted : List StoredCommand → ℕ → CommandInput → Store → AcceptCommandResult → Type 0
Accepted cs now c t (accepted_command o e) =
    (t.commands ≡ cs ++ (new_command c now ∷ [])) × (o ≡ new_command c now)
Accepted cs now c t (duplicate_command o) = ⊥
Accepted cs now c t conflict_command = ⊥

accept_new-Accepted :
    (cs : List StoredCommand) (now : ℕ) (c : CommandInput) (ids : Uuids) (s : Store)
    → Is cs now s
    → Ends (Accepted cs now c) (accept_new_tx c ids s)
unfolding accept_new_tx
accept_new-Accepted cs now c ids s h =
    let new = cs ++ (new_command c now ∷ []) in
    bind-Ends (λ t l. Is cs now t) (Accepted cs now c)
      (mutate_lease_tx c.lease_mutation ids.for_lease) _ s
      (lease-Is cs now c.lease_mutation ids.for_lease s h)
      (λ l t1 h1.
        then-Ends (λ t u. Is new now t) (Accepted cs now c) (insert_new_tx c) _ t1
          (insert-Is cs now c t1 h1)
          (λ u t2 h2.
            bind-Ends (λ t e. Is new now t) (Accepted cs now c)
              (append_event_tx c.stream_id (command_state c.command_id c.type accepted)
                ids.for_state)
              _ t2
              (event-Is new now
                (append_event_tx c.stream_id (command_state c.command_id c.type accepted)
                  ids.for_state t2)
                t2 h2
                (append_event_tx-IsFramed c.stream_id (command_state c.command_id c.type accepted)
                  ids.for_state t2))
              (λ e t3 h3.
                then-Ends (λ t u. Is new now t) (Accepted cs now c)
                  (controller_event_tx c c.lease_mutation l ids.for_controller) _ t3
                  (controller-Is new now c c.lease_mutation l ids.for_controller t3 h3)
                  (λ u t4 h4. (h4.0, ap (new_command c) h4.1)))))

-- The answer to a command whose id is taken by the row, which no table changes for.
abbrev pub repeated : CommandInput → StoredCommand → AcceptCommandResult
repeated c o = if o.semantic_hash == c.semantic_hash then duplicate_command o else conflict_command

-- What `acceptCommand` leaves of the rows and answers.
abbrev pub AcceptEffect :
    Store
    → CommandInput
    → Option StoredCommand
    → Store × Result StoreErrorCode AcceptCommandResult
    → Type 0
AcceptEffect s c o (t, err code) = t.commands ≡ s.commands
AcceptEffect s c none (t, ok r) = Accepted s.commands s.now c t r
AcceptEffect s c (some o) (t, ok r) =
    (t ≡ record s { published = s.published ++ []; collecting = [] }) × (r ≡ repeated c o)

module _ (s : Store) (c : CommandInput) (ids : Uuids) where
  concluded :
      (o : Result Fault (Store × AcceptCommandResult))
      → Ends (Accepted s.commands s.now c) o
      → AcceptEffect s c none (conclude s o)
  concluded (ok (t, accepted_command o e)) h = h
  concluded (ok (t, duplicate_command o)) h = h
  concluded (ok (t, conflict_command)) h = h
  concluded (err (store_error code)) h = refl
  concluded (err broken_constraint) h = refl

  found-AcceptEffect :
      (o : Option StoredCommand)
      → AcceptEffect s c o (conclude s (accept_found c ids o (record s { collecting = [] })))
  unfolding accept_found
  found-AcceptEffect none =
      concluded (accept_new_tx c ids (record s { collecting = [] }))
        (accept_new-Accepted s.commands s.now c ids (record s { collecting = [] }) (refl, refl))
  found-AcceptEffect (some o) = (refl, refl)

  readonly-AcceptEffect :
      (code : StoreErrorCode) (o : Option StoredCommand) → AcceptEffect s c o (s, err code)
  readonly-AcceptEffect code none = refl
  readonly-AcceptEffect code (some o) = refl

  -- `acceptCommand` throws and leaves the commands as they are, or: a fresh id gets a new row behind
  -- the others, `accepted` and never dispatched; a known id changes no table and publishes nothing,
  -- and is a duplicate if the semantic hash is the same and a conflict if not.
  pub accept_command-Effect :
      AcceptEffect s c (command c.command_id s.commands) (accept_command s c ids)
  unfolding accept_command
  accept_command-Effect =
      elim (transaction-cases (λ t. accept_found c ids (command c.command_id t.commands) t) s) [
        | inl e ↦ rw e (readonly-AcceptEffect readonly (command c.command_id s.commands))
        | inr e ↦ rw e (found-AcceptEffect (command c.command_id s.commands))
      ]
