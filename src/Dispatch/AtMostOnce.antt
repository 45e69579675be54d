-- ===== src/Dispatch/AtMostOnce.antt =====
-- packages/bridge/src/core/domain.ts: the adapter is called at most once with a command, whatever the
-- order of submissions, tasks, answers, recoveries and restarts.
use pi_mob.Prelude.{
  ℕ, ◌≡◌, ◌≢◌, refl, Bool, true, Option, none, some, List, [], ◌∷◌, ◌++◌, arith, ◌==◌, update,
  Result, ok, err, IsUnique, update-IsUnique, snoc-IsUnique, Bool-cases, inl, inr, All, All-append,
  All-map, first-has, subst, sym, ◌∙◌,
}
use pi_mob.Tables.{
  StreamId, StoredCommand, CommandState, accepted, dispatched, running, completed, failed,
  indeterminate,
}
use pi_mob.Store.{Store, StoreErrorCode}
use pi_mob.Store.Commands.{
  CommandInput, Uuids, AcceptCommandResult, accepted_command, duplicate_command, conflict_command,
  accept_command, transition_command, command, moved_to, includes, mark_uncertain_indeterminate,
  new_command,
}
use pi_mob.Store.Commands.Lifecycle.{
  is_row, Effect, IsMove, claim, onward, IsOnce, left_accepted, left-moved, All-IsOnce-moved,
  transition_command-Effect,
}
use pi_mob.Store.Commands.Accepting.{AcceptEffect, accept_command-Effect}
use pi_mob.Store.Commands.Recovery.{mark_uncertain-keeps}
use pi_mob.Dispatch.{
  Service, Task, Dispatched, returned, threw, threw_indeterminate, is_local, submitted, submit,
  catch_error, complete_result, complete, run_result, claim_result, begin_head, begin,
  settled_store, settle_head, settle, head_of, recover_marked, recover,
}

-- The rows of the commands, and the commands that the adapter was called with: each row is
-- dispatched once or is `accepted`, and no command that was called is called again or `accepted`.
pub record IsSound (cs : List StoredCommand) (calls : List ℕ) : Type 0 where
  pub unique : IsUnique (λ c. c.command_id) cs
  pub once : All IsOnce cs
  pub called : All (λ id. left_accepted (command id cs) ≡ true) calls
  pub distinct : IsUnique (λ n. n) calls

moved-IsSound :
    (cs : List StoredCommand) (calls : List ℕ) (id : ℕ) (from : List CommandState)
    (to : CommandState) (o : Store × Result StoreErrorCode (Option StoredCommand))
    → IsMove from to
    → Effect cs id from to o
    → IsSound cs calls
    → IsSound o.0.commands calls
moved-IsSound cs calls id from to (t, r) m (inl (same, row)) h =
    subst (λ xs. IsSound xs calls) (sym same) h
moved-IsSound cs calls id from to (t, r) m (inr (c, found, allowed, upd)) h =
    subst (λ xs. IsSound xs calls) (sym upd)
      (record {
        unique =
            update-IsUnique (λ o. o.command_id) (λ o. o.command_id == id) (moved_to to) cs
              (λ x. refl) h.unique;
        once = All-IsOnce-moved from to id c cs m h.unique found allowed h.once;
        called = All-map (λ k l. left-moved from to id k c cs m l) calls h.called;
        distinct = h.distinct;
      })

left-claimed :
    (id : ℕ) (c : StoredCommand) (cs : List StoredCommand)
    → command id cs ≡ some c
    → left_accepted (command id (update (λ o. o.command_id == id) (moved_to dispatched) cs)) ≡ true
left-claimed id c [] e = cc
left-claimed id c (x ∷ xs) e = ground (arith, left-claimed id c xs)

fresh-claimed :
    (id : ℕ) (c : StoredCommand) (cs : List StoredCommand) (calls : List ℕ)
    → command id cs ≡ some c
    → includes (accepted ∷ []) c.state ≡ true
    → All (λ n. left_accepted (command n cs) ≡ true) calls
    → All (λ n. n ≢ id) calls
fresh-claimed id c cs calls e a =
    All-map
      (λ n l same.
        let l' : left_accepted (command id cs) ≡ true =
          subst (λ m. left_accepted (command m cs) ≡ true) same l in
        let l'' : left_accepted (some c) ≡ true = subst (λ o. left_accepted o ≡ true) e l' in
        ground (arith, l'', a))
      calls

-- A command that is claimed may be called.
claimed-IsSound :
    (cs : List StoredCommand) (calls : List ℕ) (id : ℕ)
    (o : Store × Result StoreErrorCode (Option StoredCommand))
    → Effect cs id (accepted ∷ []) dispatched o
    → is_row o.1 ≡ true
    → IsSound cs calls
    → IsSound o.0.commands (id ∷ calls)
claimed-IsSound cs calls id (t, r) (inl (same, row)) k h = cc
claimed-IsSound cs calls id (t, r) (inr (c, found, allowed, upd)) k h =
    let moved =
      moved-IsSound cs calls id (accepted ∷ []) dispatched (t, r) claim
        (inr (c, found, allowed, upd)) h in
    record {
      unique = moved.unique;
      once = moved.once;
      called = (
        subst (λ xs. left_accepted (command id xs) ≡ true) (sym upd) (left-claimed id c cs found),
        moved.called,
      );
      distinct = (fresh-claimed id c cs calls found allowed h.called, h.distinct);
    }

uncalled :
    (cs : List StoredCommand) (id : ℕ) (calls : List ℕ) → IsSound cs (id ∷ calls) → IsSound cs calls
uncalled cs id calls h = record {
  unique = h.unique;
  once = h.once;
  called = h.called.1;
  distinct = h.distinct.1;
}

left-append :
    (id : ℕ) (cs : List StoredCommand) (c : StoredCommand)
    → left_accepted (command id cs) ≡ true
    → left_accepted (command id (cs ++ (c ∷ []))) ≡ true
left-append id [] c h = cc
left-append id (x ∷ xs) c h = ground (arith, h, left-append id xs c)

appended-IsSound :
    (cs : List StoredCommand) (calls : List ℕ) (c : CommandInput) (now : ℕ)
    → command c.command_id cs ≡ none
    → IsSound cs calls
    → IsSound (cs ++ (new_command c now ∷ [])) calls
appended-IsSound cs calls c now e h = record {
  unique =
      snoc-IsUnique (λ o. o.command_id) cs (new_command c now)
        (sym (first-has (λ o. o.command_id == c.command_id) cs) ∙ rw e refl) h.unique;
  once = All-append IsOnce cs (new_command c now ∷ []) h.once (refl, tt);
  called = All-map (λ id l. left-append id cs (new_command c now) l) calls h.called;
  distinct = h.distinct;
}

accepted-IsSound :
    (s : Store) (calls : List ℕ) (c : CommandInput) (o : Option StoredCommand)
    (r : Store × Result StoreErrorCode AcceptCommandResult)
    → command c.command_id s.commands ≡ o
    → AcceptEffect s c o r
    → IsSound s.commands calls
    → IsSound r.0.commands calls
accepted-IsSound s calls c o (t, err code) e k h = subst (λ xs. IsSound xs calls) (sym k) h
accepted-IsSound s calls c none (t, ok (accepted_command d ev)) e k h =
    subst (λ xs. IsSound xs calls) (sym k.0) (appended-IsSound s.commands calls c s.now e h)
accepted-IsSound s calls c none (t, ok (duplicate_command d)) e k h = absurd k
accepted-IsSound s calls c none (t, ok conflict_command) e k h = absurd k
accepted-IsSound s calls c (some d) (t, ok r) e k h =
    subst (λ (u : Store). IsSound u.commands calls) (sym k.0) h

abbrev pub IsSoundService : Service → Type 0
IsSoundService v = IsSound v.store.commands v.calls

submitted-IsSound :
    (v : Service) (id : ℕ) (o : Store × Result StoreErrorCode AcceptCommandResult)
    → IsSound o.0.commands v.calls
    → IsSoundService (submitted v id o).0
unfolding submitted
submitted-IsSound v id (s, err code) h = h
submitted-IsSound v id (s, ok conflict_command) h = h
submitted-IsSound v id (s, ok (duplicate_command c)) h = h
submitted-IsSound v id (s, ok (accepted_command c e)) h = h

submit-IsSound :
    (v : Service) (c : CommandInput) (ids : Uuids)
    → IsSoundService v
    → IsSoundService (submit v c ids).0
unfolding submit
submit-IsSound v c ids h = submitted-IsSound v c.command_id (accept_command v.store c ids) (
    accepted-IsSound v.store v.calls c (command c.command_id v.store.commands)
      (accept_command v.store c ids) refl (accept_command-Effect v.store c ids) h)

module _ (uuid : Store → ℕ) where
  transition-IsSound :
      (s : Store) (calls : List ℕ) (id : ℕ) (from : List CommandState) (to : CommandState)
      → IsMove from to
      → IsSound s.commands calls
      → IsSound (transition_command s id from to (uuid s)).0.commands calls
  transition-IsSound s calls id from to m h =
      moved-IsSound s.commands calls id from to (transition_command s id from to (uuid s)) m
        (transition_command-Effect s id from to (uuid s)) h

  -- A state that ends a command.
  IsEnd : CommandState → Type 0
  IsEnd to = IsMove (dispatched ∷ running ∷ []) to

  catch_error-IsSound :
      (s : Store) (calls : List ℕ) (id : ℕ) (to : CommandState)
      → IsEnd to
      → IsSound s.commands calls
      → IsSound (catch_error uuid s id to).commands calls
  unfolding catch_error IsEnd
  catch_error-IsSound s calls id to m h =
      transition-IsSound s calls id (dispatched ∷ running ∷ []) to m h

  complete_result-IsSound :
      (calls : List ℕ) (id : ℕ) (o : Store × Result StoreErrorCode (Option StoredCommand))
      → IsSound o.0.commands calls
      → IsSound (complete_result uuid id o).commands calls
  unfolding complete_result IsEnd
  complete_result-IsSound calls id (s, err code) h =
      catch_error-IsSound s calls id failed (onward _ _ refl refl refl) h
  complete_result-IsSound calls id (s, ok o) h = h

  complete-IsSound :
      (s : Store) (calls : List ℕ) (id : ℕ)
      → IsSound s.commands calls
      → IsSound (complete uuid s id).commands calls
  unfolding complete
  complete-IsSound s calls id h =
      complete_result-IsSound calls id (transition_command s id (running ∷ []) completed (uuid s))
        (transition-IsSound s calls id (running ∷ []) completed (onward _ _ refl refl refl) h)

  run_result-IsSound :
      (v : Service) (t : Task) (c : StoredCommand)
      (o : Store × Result StoreErrorCode (Option StoredCommand))
      → IsSound o.0.commands (t.command_id ∷ v.calls)
      → IsSoundService (run_result uuid v t c o)
  unfolding run_result IsEnd
  run_result-IsSound v t c (s, err code) h =
      catch_error-IsSound s v.calls t.command_id failed (onward _ _ refl refl refl)
        (uncalled s.commands t.command_id v.calls h)
  run_result-IsSound v t c (s, ok o) h = elim (Bool-cases (is_local c.type)) [
    | inl e ↦
        rw e (complete-IsSound s v.calls t.command_id (uncalled s.commands t.command_id v.calls h))
    | inr e ↦ rw e h
  ]

  claim_result-IsSound :
      (v : Service) (t : Task) (o : Store × Result StoreErrorCode (Option StoredCommand))
      → Effect v.store.commands t.command_id (accepted ∷ []) dispatched o
      → IsSoundService v
      → IsSoundService (claim_result uuid v t o)
  unfolding claim_result
  claim_result-IsSound v t (s, err code) k h =
      moved-IsSound v.store.commands v.calls t.command_id _ _ (s, err code) claim k h
  claim_result-IsSound v t (s, ok none) k h =
      moved-IsSound v.store.commands v.calls t.command_id _ _ (s, ok none) claim k h
  claim_result-IsSound v t (s, ok (some c)) k h =
      run_result-IsSound v t c
        (transition_command s t.command_id (dispatched ∷ []) running (uuid s))
        (transition-IsSound s (t.command_id ∷ v.calls) t.command_id (dispatched ∷ []) running
          (onward _ _ refl refl refl)
          (claimed-IsSound v.store.commands v.calls t.command_id (s, ok (some c)) k refl h))

  begin_head-IsSound :
      (v : Service) (o : Option Task) → IsSoundService v → IsSoundService (begin_head uuid v o)
  unfolding begin_head claim_result run_result
  begin_head-IsSound v none h = h
  begin_head-IsSound v (some t) h = elim (Bool-cases t.started) [
    | inl e ↦ rw e h
    | inr e ↦ rw e (
        claim_result-IsSound v t
          (transition_command v.store t.command_id (accepted ∷ []) dispatched (uuid v.store))
          (transition_command-Effect v.store t.command_id (accepted ∷ []) dispatched (uuid v.store))
          h)
  ]

  settled_store-IsSound :
      (s : Store) (calls : List ℕ) (id : ℕ) (d : Dispatched)
      → IsSound s.commands calls
      → IsSound (settled_store uuid s id d).commands calls
  unfolding settled_store IsEnd
  settled_store-IsSound s calls id returned h = complete-IsSound s calls id h
  settled_store-IsSound s calls id threw h =
      catch_error-IsSound s calls id failed (onward _ _ refl refl refl) h
  settled_store-IsSound s calls id threw_indeterminate h =
      catch_error-IsSound s calls id indeterminate (onward _ _ refl refl refl) h

  settle_head-IsSound :
      (v : Service) (d : Dispatched) (o : Option Task)
      → IsSoundService v
      → IsSoundService (settle_head uuid v d o)
  unfolding settle_head
  settle_head-IsSound v d none h = h
  settle_head-IsSound v d (some t) h = elim (Bool-cases t.started) [
    | inl e ↦ rw e (settled_store-IsSound v.store v.calls t.command_id d h)
    | inr e ↦ rw e h
  ]

  recover_marked-IsSound :
      (v : Service) (o : Store × Result StoreErrorCode ℕ)
      → IsSound o.0.commands v.calls
      → IsSoundService (recover_marked uuid v o)
  unfolding recover_marked
  recover_marked-IsSound v (s, err code) h = h
  recover_marked-IsSound v (s, ok n) h = h

  recover-IsSound : (v : Service) → IsSoundService v → IsSoundService (recover uuid v)
  unfolding recover
  recover-IsSound v h = recover_marked-IsSound v (mark_uncertain_indeterminate uuid v.store) (
      mark_uncertain-keeps uuid (λ s. IsSound s.commands v.calls)
        (λ s id from to m k. transition-IsSound s v.calls id from to m k) v.store h)

  -- One step of the service, or a restart of the process, which loses the tasks.
  pub data ServiceStep : Service → Service → Type 0 where
    submits : (v : Service) (c : CommandInput) (ids : Uuids) → ServiceStep v (submit v c ids).0
    begins : (v : Service) (lane : StreamId) → ServiceStep v (begin uuid v lane)
    settles :
        (v : Service) (lane : StreamId) (d : Dispatched) → ServiceStep v (settle uuid v lane d)
    recovers : (v : Service) → ServiceStep v (recover uuid v)
    -- The process starts again on the same database, and finds it open for writing or not.
    restarts :
        (v : Service) (writable maintenance : Bool)
        → ServiceStep v (record v {
          store = record v.store { writable = writable; maintenance = maintenance };
          tasks = [];
        })

  pub data ServiceSteps : Service → Service → Type 0 where
    stop : (v : Service) → ServiceSteps v v
    step : (u v w : Service) → ServiceStep u v → ServiceSteps v w → ServiceSteps u w

  ServiceStep-IsSound : (v w : Service) → ServiceStep v w → IsSoundService v → IsSoundService w
  unfolding begin settle
  ServiceStep-IsSound _ _ (submits v c ids) h = submit-IsSound v c ids h
  ServiceStep-IsSound _ _ (begins v lane) h = begin_head-IsSound v (head_of lane v.tasks) h
  ServiceStep-IsSound _ _ (settles v lane d) h = settle_head-IsSound v d (head_of lane v.tasks) h
  ServiceStep-IsSound _ _ (recovers v) h = recover-IsSound v h
  ServiceStep-IsSound _ _ (restarts v writable maintenance) h = record {
    unique = h.unique;
    once = h.once;
    called = h.called;
    distinct = h.distinct;
  }

  -- From a sound service, whatever steps and restarts follow, in any order: no command reaches the adapter twice, a
  -- command that reached it never is `accepted` again, and each row counts one dispatch, or none
  -- while it is `accepted`.
  pub ServiceSteps-IsSound :
      (v w : Service) → ServiceSteps v w → IsSoundService v → IsSoundService w
  ServiceSteps-IsSound _ _ (stop v) h = h
  ServiceSteps-IsSound _ _ (step u v w k ks) h =
      ServiceSteps-IsSound v w ks (ServiceStep-IsSound u v k h)
