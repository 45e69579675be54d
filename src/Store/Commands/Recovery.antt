-- ===== src/Store/Commands/Recovery.antt =====
-- packages/bridge/src/core/store.ts: what marking the uncertain commands keeps.
use pi_mob.Prelude.{
  ℕ, ◌≡◌, refl, true, Option, List, [], ◌∷◌, keep, Result, ok, err, Bool-cases, inl, inr, All,
}
use pi_mob.Tables.{
  StoredCommand, CommandState, accepted, dispatched, running, completed, failed, indeterminate,
}
use pi_mob.Store.{Store, StoreErrorCode}
use pi_mob.Store.Commands.{
  includes, transition_command, recovery_candidates, mark_next, counted, mark_all,
  mark_uncertain_indeterminate,
}
use pi_mob.Store.Commands.Lifecycle.{IsMove, onward}

abbrev IsUncertain : StoredCommand → Type 0
IsUncertain c = includes (dispatched ∷ running ∷ []) c.state ≡ true

keep-IsUncertain :
    (cs : List StoredCommand)
    → All IsUncertain (keep (λ c. includes (dispatched ∷ running ∷ []) c.state) cs)
keep-IsUncertain [] = tt
keep-IsUncertain (c ∷ cs) = elim (Bool-cases (includes (dispatched ∷ running ∷ []) c.state)) [
  | inl e ↦ simp e (refl, keep-IsUncertain cs)
  | inr e ↦ simp e (keep-IsUncertain cs)
]

uncertain-IsMove :
    (a : CommandState)
    → includes (dispatched ∷ running ∷ []) a ≡ true
    → IsMove (a ∷ []) indeterminate
uncertain-IsMove accepted h = cc
uncertain-IsMove dispatched h = onward _ _ refl refl refl
uncertain-IsMove running h = onward _ _ refl refl refl
uncertain-IsMove completed h = cc
uncertain-IsMove failed h = cc
uncertain-IsMove indeterminate h = cc

module _ (uuid : Store → ℕ) (P : Store → Type 0)
    (kept : (s : Store) (id : ℕ) (from : List CommandState) (to : CommandState)
      → IsMove from to
      → P s
      → P (transition_command s id from to (uuid s)).0) where
  next-keeps :
      (rest : ℕ → Store → Store × Result StoreErrorCode ℕ) (n : ℕ)
      (o : Store × Result StoreErrorCode (Option StoredCommand))
      → ((m : ℕ) (s : Store) → P s → P (rest m s).0)
      → P o.0
      → P (mark_next rest n o).0
  next-keeps rest n (s, err code) g p = p
  next-keeps rest n (s, ok o) g p = g (counted o n) s p

  all-keeps :
      (cs : List StoredCommand) (n : ℕ) (s : Store)
      → All IsUncertain cs
      → P s
      → P (mark_all uuid cs n s).0
  unfolding mark_all
  all-keeps [] n s h p = p
  all-keeps (c ∷ cs) n s h p =
      next-keeps (mark_all uuid cs) n
        (transition_command s c.command_id (c.state ∷ []) indeterminate (uuid s))
        (λ m t q. all-keeps cs m t h.1 q)
        (kept s c.command_id (c.state ∷ []) indeterminate (uncertain-IsMove c.state h.0) p)

  -- What the transitions of the code keep, the recovery's marking keeps.
  pub mark_uncertain-keeps : (s : Store) → P s → P (mark_uncertain_indeterminate uuid s).0
  unfolding mark_uncertain_indeterminate
  mark_uncertain-keeps s p =
      all-keeps (keep (λ c. includes (dispatched ∷ running ∷ []) c.state) (recovery_candidates s)) 0
        s (keep-IsUncertain (recovery_candidates s)) p
