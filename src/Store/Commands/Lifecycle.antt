-- ===== src/Store/Commands/Lifecycle.antt =====
-- packages/bridge/src/core/store.ts: what a transition of a command does to the rows.
use pi_mob.Prelude.{
  ℕ, ◌≡◌, ◌≢◌, refl, Bool, true, false, not, Option, none, some, List, [], ◌∷◌, arith, ◌==◌, ==_iff,
  ==_of_ne, some_inj, if◌then◌else◌, update, Result, ok, err, IsUnique, Bool-cases, inl, inr, All,
  subst, sym, ap, ◌∙◌, ◌⊎◌,
}
use pi_mob.Tables.{
  StoredEvent, StoredCommand, CommandState, accepted, dispatched, running, completed, failed,
  indeterminate, command_state, command_state_eq,
}
use pi_mob.Store.{Store, Fault, conclude, StoreErrorCode, store_error, broken_constraint}
use pi_mob.Store.Transactions.{Keeps, transaction-cases}
use pi_mob.Store.Journal.{append_event_tx}
use pi_mob.Store.Journal.Append.{IsFramed, append_event_tx-IsFramed}
use pi_mob.Store.Commands.{
  command, includes, moved_to, transition_found, transition_command, dispatches,
}

abbrev pub is_row : Result StoreErrorCode (Option StoredCommand) → Bool
is_row (ok (some c)) = true
is_row _ = false

-- What became of the rows, and of the answer.
abbrev pub Effect :
    List StoredCommand
    → ℕ
    → List CommandState
    → CommandState
    → Store × Result StoreErrorCode (Option StoredCommand)
    → Type 0
Effect cs id from to (t, r) =
    ((t.commands ≡ cs) × (is_row r ≡ false))
    ⊎ ((c : StoredCommand) × (command id cs ≡ some c)
        × (includes from c.state ≡ true)
        × (t.commands ≡ update (λ o. o.command_id == id) (moved_to to) cs))

module _ (s : Store) (id : ℕ) (from : List CommandState) (to : CommandState) (event_id : ℕ) where
  unchanged :
      (f : Fault) → Effect s.commands id from to (conclude {A = Option StoredCommand} s (err f))
  unchanged (store_error code) = inl (refl, refl)
  unchanged broken_constraint = inl (refl, refl)

  appended-Effect :
      (c : StoredCommand) (o : Result Fault (Store × StoredEvent))
      → command id s.commands ≡ some c
      → includes from c.state ≡ true
      → Keeps
          (IsFramed (record s {
            commands = update (λ o. o.command_id == id) (moved_to to) s.commands;
            collecting = [];
          }))
          o
      → Effect s.commands id from to
          (conclude s (elim o [ err f ↦ err f | ok (t, e) ↦ ok (t, command id t.commands) ]))
  appended-Effect c (err f) e h k = unchanged f
  appended-Effect c (ok (t, ev)) e h k = inr (c, e, h, ap (λ (u : Store). u.commands) k)

  found-Effect :
      (o : Option StoredCommand)
      → command id s.commands ≡ o
      → Effect s.commands id from to
          (conclude s (transition_found id from to event_id o (record s { collecting = [] })))
  unfolding transition_found
  found-Effect none e = inl (refl, refl)
  found-Effect (some c) e = elim (Bool-cases (includes from c.state)) [
    | inl h ↦ rw h (
        appended-Effect c
          (append_event_tx c.stream_id (command_state id c.type to) event_id (record s {
            commands = update (λ o. o.command_id == id) (moved_to to) s.commands;
            collecting = [];
          }))
          e h
          (append_event_tx-IsFramed c.stream_id (command_state id c.type to) event_id (record s {
            commands = update (λ o. o.command_id == id) (moved_to to) s.commands;
            collecting = [];
          })))
    | inr h ↦ rw h (inl (refl, refl))
  ]

  -- A transition either changes no command and answers with no row, or moves exactly the command
  -- that it names, from a state that it allows.
  pub transition_command-Effect :
      Effect s.commands id from to (transition_command s id from to event_id)
  unfolding transition_command
  transition_command-Effect =
      elim (transaction-cases (λ t. transition_found id from to event_id (command id t.commands) t)
        s) [
          | inl e ↦ rw e (inl (refl, refl))
          | inr e ↦ rw e (found-Effect (command id s.commands) refl)
        ]

-- A command that was never dispatched is `accepted`, and any other one was dispatched once.
abbrev pub IsOnce : StoredCommand → Type 0
IsOnce c = c.dispatch_count ≡ (if command_state_eq c.state accepted then 0 else 1)

-- The transitions that the code makes: from `accepted` alone to `dispatched`, or from states other
-- than `accepted` to one that is neither.
pub data IsMove : List CommandState → CommandState → Type 0 where
  claim : IsMove (accepted ∷ []) dispatched
  onward :
      (from : List CommandState) (to : CommandState)
      → includes from accepted ≡ false
      → command_state_eq to accepted ≡ false
      → dispatches to ≡ 0
      → IsMove from to

is_accepted : (a : CommandState) → command_state_eq a accepted ≡ true → a ≡ accepted
is_accepted accepted h = refl
is_accepted dispatched h = cc
is_accepted running h = cc
is_accepted completed h = cc
is_accepted failed h = cc
is_accepted indeterminate h = cc

not_accepted :
    (a : CommandState) (from : List CommandState)
    → includes from a ≡ true
    → includes from accepted ≡ false
    → command_state_eq a accepted ≡ false
not_accepted a from h k = elim (Bool-cases (command_state_eq a accepted)) [
  | inl p ↦ let q = is_accepted a p in cc
  | inr p ↦ p
]

left_to :
    (from : List CommandState) (to : CommandState)
    → IsMove from to
    → command_state_eq to accepted ≡ false
left_to _ _ claim = refl
left_to _ _ (onward from to k n d) = n

IsOnce-moved :
    (from : List CommandState) (to : CommandState) (c : StoredCommand)
    → IsMove from to
    → includes from c.state ≡ true
    → IsOnce c
    → IsOnce (moved_to to c)
IsOnce-moved _ _ c claim h o =
    let at : command_state_eq c.state accepted ≡ true = ground (arith, h) in
    let zero_times : c.dispatch_count ≡ 0 = o ∙ rw at refl in omega (arith, zero_times)
IsOnce-moved _ _ c (onward from to k n d) h o =
    let at : command_state_eq c.state accepted ≡ false = not_accepted c.state from h k in
    let one_time : c.dispatch_count ≡ 1 = o ∙ rw at refl in rw (d, n, one_time) refl

pub All-IsOnce-moved :
    (from : List CommandState) (to : CommandState) (id : ℕ) (c : StoredCommand)
    (cs : List StoredCommand)
    → IsMove from to
    → IsUnique (λ o. o.command_id) cs
    → command id cs ≡ some c
    → includes from c.state ≡ true
    → All IsOnce cs
    → All IsOnce (update (λ o. o.command_id == id) (moved_to to) cs)
All-IsOnce-moved from to id c [] m u e h k = tt
All-IsOnce-moved from to id c (x ∷ xs) m u e h k = elim (Bool-cases (x.command_id == id)) [
  | inl p ↦
      let same : x ≡ c = some_inj (rw p at e) in
      let allowed : includes from x.state ≡ true =
        subst (λ (y : StoredCommand). includes from y.state ≡ true) (sym same) h in
      let named : x.command_id ≡ id = (==_iff x.command_id id).0 p in
      rw (p, untouched xs (subst (λ n. All (λ y. y.command_id ≢ n) xs) named u.0))
        (IsOnce-moved from to x m allowed k.0, k.1)
  | inr p ↦ rw p (k.0, All-IsOnce-moved from to id c xs m u.1 (rw p at e) h k.1)
]
  where
    untouched :
        (ys : List StoredCommand)
        → All (λ y. y.command_id ≢ id) ys
        → update (λ o. o.command_id == id) (moved_to to) ys ≡ ys
    untouched [] h = refl
    untouched (y ∷ ys) h = rw (==_of_ne y.command_id id h.0) (ap (◌∷◌ y) (untouched ys h.1))

-- A command that has left `accepted`.
abbrev pub left_accepted : Option StoredCommand → Bool
left_accepted none = false
left_accepted (some c) = not (command_state_eq c.state accepted)

-- No move takes a command back to `accepted`.
pub left-moved :
    (from : List CommandState) (to : CommandState) (id k : ℕ) (c : StoredCommand)
    (cs : List StoredCommand)
    → IsMove from to
    → left_accepted (command k cs) ≡ true
    → left_accepted (command k (update (λ o. o.command_id == id) (moved_to to) cs)) ≡ true
left-moved from to id k c [] m h = h
left-moved from to id k c (x ∷ xs) m h =
    ground (arith, left_to from to m, left-moved from to id k c xs m)
