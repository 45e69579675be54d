-- ===== src/Store/Commands/Marking.antt =====
-- packages/bridge/src/core/store.ts: the loop of markUncertainIndeterminate over commands that are
-- rows of the table.
use pi_mob.Prelude.{
  ℕ, ◌≡◌, ◌≢◌, refl, Bool, true, false, Option, some, List, [], ◌∷◌, arith, ◌==◌, ==_of_ne, ==_iff,
  has, update, Result, ok, err, IsUnique, Bool-cases, inl, inr, All, subst, sym, ap, ◌∙◌,
}
use pi_mob.Tables.{
  StoredEvent, StoredCommand, CommandState, accepted, dispatched, running, completed, failed,
  indeterminate, command_state,
}
use pi_mob.Store.{Store, Fault, StoreErrorCode}
use pi_mob.Store.Transactions.{Keeps, Ends, Concludes, transaction-Concludes}
use pi_mob.Store.Journal.{append_event_tx}
use pi_mob.Store.Journal.Append.{IsFramed, append_event_tx-IsFramed}
use pi_mob.Store.Commands.{
  command, includes, moved_to, transition_found, transition_command, counted, mark_next, mark_all,
}

abbrev pub is_uncertain : StoredCommand → Bool
is_uncertain c = includes (dispatched ∷ running ∷ []) c.state

abbrev pub named : ℕ → StoredCommand → Bool
named id c = c.command_id == id

-- The rows with the command of one id marked, and those with the commands of a list marked.
abbrev one_marked : ℕ → List StoredCommand → List StoredCommand
one_marked id = update (named id) (moved_to indeterminate)

abbrev pub marked : List StoredCommand → List StoredCommand → List StoredCommand
marked cs = update (λ x. has (named x.command_id) cs) (moved_to indeterminate)

own_state : (a : CommandState) → includes (a ∷ []) a ≡ true
own_state accepted = refl
own_state dispatched = refl
own_state running = refl
own_state completed = refl
own_state failed = refl
own_state indeterminate = refl

abbrev pub RowsAre : List StoredCommand → {A : Type 0} → Store × Result StoreErrorCode A → Type 0
RowsAre rows (t, ok a) = t.commands ≡ rows
RowsAre rows (t, err code) = Unit

module _ (s : Store) (c : StoredCommand) (event_id : ℕ) where
  marked_found :
      Ends
        (λ (t : Store) (o : Option StoredCommand). t.commands ≡ one_marked c.command_id s.commands)
        (transition_found c.command_id
          (c.state ∷ [])
          indeterminate
          event_id
          (some c)
          (record s { collecting = [] }))
  unfolding transition_found
  marked_found = rw (own_state c.state) (
      go (append_event_tx c.stream_id (command_state c.command_id c.type indeterminate) event_id t)
        (append_event_tx-IsFramed c.stream_id (command_state c.command_id c.type indeterminate)
          event_id t))
    where
      t : Store
      t = record s { commands = one_marked c.command_id s.commands; collecting = [] }

      go :
          (o : Result Fault (Store × StoredEvent))
          → Keeps (IsFramed t) o
          → Ends
              (λ (u : Store) (r : Option StoredCommand).
                u.commands ≡ one_marked c.command_id s.commands)
              (elim o [ err f ↦ err f | ok (u, e) ↦ ok (u, command c.command_id u.commands) ])
      go (err f) k = tt
      go (ok (u, e)) k = ap (λ (v : Store). v.commands) k

  transition-marks :
      command c.command_id s.commands ≡ some c
      → Concludes
          (λ (t : Store) (o : Option StoredCommand).
            t.commands ≡ one_marked c.command_id s.commands)
          (λ t. Unit {0})
          (transition_command s c.command_id (c.state ∷ []) indeterminate event_id)
  unfolding transition_command
  transition-marks e =
      transaction-Concludes
        (λ (t : Store) (o : Option StoredCommand). t.commands ≡ one_marked c.command_id s.commands)
        (λ t. Unit {0})
        (λ t.
          transition_found c.command_id (c.state ∷ []) indeterminate event_id
            (command c.command_id t.commands) t)
        s (λ a t published collecting w h. h) (λ t published collecting w h. tt) tt
        (rw e marked_found)

one-then-rest :
    (c : StoredCommand) (cs rows : List StoredCommand)
    → has (named c.command_id) cs ≡ false
    → marked cs (one_marked c.command_id rows) ≡ marked (c ∷ cs) rows
one-then-rest c cs [] h = refl
one-then-rest c cs (x ∷ rows) h = elim (Bool-cases (named c.command_id x)) [
  | inl e ↦
      let same : x.command_id ≡ c.command_id = (==_iff x.command_id c.command_id).0 e in
      let back : (c.command_id == x.command_id) ≡ true = ground (arith, e) in
      let none_left : has (named x.command_id) cs ≡ false =
        subst (λ n. has (named n) cs ≡ false) (sym same) h in
      rw (e, back, none_left, one-then-rest c cs rows h) refl
  | inr e ↦
      let back : (c.command_id == x.command_id) ≡ false = ground (arith, e) in
      rw (e, back, one-then-rest c cs rows h) refl
]

found_other :
    (id n : ℕ) (rows : List StoredCommand)
    → id ≢ n
    → command id (one_marked n rows) ≡ command id rows
found_other id n [] ne = refl
found_other id n (x ∷ rows) ne = ground (arith, ne, found_other id n rows ne)

pub has_none :
    (n : ℕ) (cs : List StoredCommand) → All (λ d. d.command_id ≢ n) cs → has (named n) cs ≡ false
has_none n [] h = refl
has_none n (d ∷ cs) h = rw (==_of_ne d.command_id n h.0) (has_none n cs h.1)

abbrev pub IsFound : List StoredCommand → StoredCommand → Type 0
IsFound rows c = command c.command_id rows ≡ some c

still-IsFound :
    (n : ℕ) (rows cs : List StoredCommand)
    → All (λ d. d.command_id ≢ n) cs
    → All (IsFound rows) cs
    → All (IsFound (one_marked n rows)) cs
still-IsFound n rows [] h k = tt
still-IsFound n rows (d ∷ cs) h k =
    (found_other d.command_id n rows h.0 ∙ k.0, still-IsFound n rows cs h.1 k.1)

module _ (uuid : Store → ℕ) where
  next-marked :
      (c : StoredCommand) (cs : List StoredCommand) (n : ℕ) (s : Store)
      (o : Store × Result StoreErrorCode (Option StoredCommand))
      → has (named c.command_id) cs ≡ false
      → Concludes
          (λ (t : Store) (r : Option StoredCommand).
            t.commands ≡ one_marked c.command_id s.commands)
          (λ t. Unit {0})
          o
      → ((m : ℕ) (t : Store)
          → t.commands ≡ one_marked c.command_id s.commands
          → RowsAre (marked cs t.commands) (mark_all uuid cs m t))
      → RowsAre (marked (c ∷ cs) s.commands) (mark_next (mark_all uuid cs) n o)
  next-marked c cs n s (t, err code) h k rest = tt
  next-marked c cs n s (t, ok o) h k rest =
      subst (λ rows. RowsAre rows (mark_all uuid cs (counted o n) t))
        (ap (marked cs) k ∙ one-then-rest c cs s.commands h) (rest (counted o n) t k)

  pub mark_all-exact :
      (cs : List StoredCommand) (n : ℕ) (s : Store)
      → IsUnique (λ c. c.command_id) cs
      → All (IsFound s.commands) cs
      → RowsAre (marked cs s.commands) (mark_all uuid cs n s)
  unfolding mark_all
  mark_all-exact [] n s u f = sym (none_marked s.commands)
    where
      none_marked : (rows : List StoredCommand) → marked [] rows ≡ rows
      none_marked [] = refl
      none_marked (x ∷ rows) = ap (◌∷◌ x) (none_marked rows)
  mark_all-exact (c ∷ cs) n s u f =
      next-marked c cs n s (transition_command s c.command_id (c.state ∷ []) indeterminate (uuid s))
        (has_none c.command_id cs u.0) (transition-marks s c (uuid s) f.0)
        (λ m t e. mark_all-exact cs m t u.1 (
          subst (λ rows. All (IsFound rows) cs) (sym e)
            (still-IsFound c.command_id s.commands cs u.0 f.1)))
