-- ===== src/Store/Commands/Candidates.antt =====
-- packages/bridge/src/core/store.ts: recoveryCandidates, and the rows behind
-- markUncertainIndeterminate.
use pi_mob.Prelude.{
  ℕ, ◌≡◌, ◌≢◌, refl, Bool, ◌||◌, ◌&&◌, insert_by, List, [], ◌∷◌, arith, ==_refl, ==_of_ne, keep,
  has, update, sort_by, IsUnique, Bool-cases, inl, inr, All, All-map, All-keep, sort_by-All,
  sort_by-IsUnique, keep-IsUnique, keep-sort_by, keep-keep, keep_cong, subst, sym, ap, ◌∙◌,
}
use pi_mob.Tables.{
  StoredCommand, CommandState, accepted, dispatched, running, completed, failed, indeterminate,
}
use pi_mob.Store.{Store}
use pi_mob.Store.Commands.{
  includes, moved_to, recovery_candidates, mark_all, mark_uncertain_indeterminate,
}
use pi_mob.Store.Commands.Marking.{
  is_uncertain, named, marked, RowsAre, IsFound, has_none, mark_all-exact,
}

-- The candidates that pass a test which only candidates pass.
pub candidates-keep :
    (p : StoredCommand → Bool) (s : Store)
    → ((c : StoredCommand) → (includes (accepted ∷ dispatched ∷ running ∷ []) c.state && p c) ≡ p c)
    → keep p (recovery_candidates s) ≡ sort_by (λ c. c.created_at) (keep p s.commands)
unfolding recovery_candidates
candidates-keep p s h =
    let q : StoredCommand → Bool = λ c. includes (accepted ∷ dispatched ∷ running ∷ []) c.state in
    keep-sort_by (λ c. c.created_at) p (keep q s.commands)
    ∙ ap (sort_by (λ c. c.created_at)) (
        sym (keep-keep q p s.commands)
        ∙ keep_cong (λ c. q c && p c) p s.commands (each q s.commands))
  where
    each :
        (q : StoredCommand → Bool) (rows : List StoredCommand)
        → All (λ c. (includes (accepted ∷ dispatched ∷ running ∷ []) c.state && p c) ≡ p c) rows
    each q [] = tt
    each q (c ∷ rows) = (h c, each q rows)

uncertain_only :
    (a : CommandState)
    → (includes (accepted ∷ dispatched ∷ running ∷ []) a && includes (dispatched ∷ running ∷ []) a)
      ≡ includes (dispatched ∷ running ∷ []) a
uncertain_only accepted = refl
uncertain_only dispatched = refl
uncertain_only running = refl
uncertain_only completed = refl
uncertain_only failed = refl
uncertain_only indeterminate = refl

abbrev waiting : Store → List StoredCommand
waiting s = sort_by (λ c. c.created_at) (keep is_uncertain s.commands)

has-insert_by :
    (key : StoredCommand → ℕ) (p : StoredCommand → Bool) (x : StoredCommand)
    (xs : List StoredCommand)
    → has p (insert_by key x xs) ≡ (p x || has p xs)
has-insert_by key p x [] = refl
has-insert_by key p x (y ∷ ys) = ground (arith, has-insert_by key p x ys)

has-sort_by :
    (key : StoredCommand → ℕ) (p : StoredCommand → Bool) (xs : List StoredCommand)
    → has p (sort_by key xs) ≡ has p xs
has-sort_by key p [] = refl
has-sort_by key p (x ∷ xs) = has-insert_by key p x (sort_by key xs) ∙ rw (has-sort_by key p xs) refl

marked_cong :
    (cs rows : List StoredCommand)
    → All (λ x. has (named x.command_id) cs ≡ is_uncertain x) rows
    → marked cs rows ≡ update is_uncertain (moved_to indeterminate) rows
marked_cong cs [] h = refl
marked_cong cs (x ∷ rows) h = rw (h.0, marked_cong cs rows h.1) refl

named_uncertain :
    (rows : List StoredCommand)
    → IsUnique (λ c. c.command_id) rows
    → All (λ x. has (named x.command_id) (keep is_uncertain rows) ≡ is_uncertain x) rows
named_uncertain [] u = tt
named_uncertain (x ∷ xs) u = elim (Bool-cases (is_uncertain x)) [
  | inl e ↦
      let split : x ∷ keep is_uncertain xs ≡ keep is_uncertain (x ∷ xs) = rw e refl in
      subst (λ ks. All (λ y. has (named y.command_id) ks ≡ is_uncertain y) (x ∷ xs)) split
        (
          rw (==_refl x.command_id, e) refl,
          widen (keep is_uncertain xs) xs u.0 (named_uncertain xs u.1),
        )
  | inr e ↦
      let split : keep is_uncertain xs ≡ keep is_uncertain (x ∷ xs) = rw e refl in
      subst (λ ks. All (λ y. has (named y.command_id) ks ≡ is_uncertain y) (x ∷ xs)) split
        (
          has_none x.command_id (keep is_uncertain xs)
                (All-keep (λ d. d.command_id ≢ x.command_id) is_uncertain xs u.0)
              ∙ sym e,
          named_uncertain xs u.1,
        )
]
  where
    widen :
        (ks ys : List StoredCommand)
        → All (λ y. y.command_id ≢ x.command_id) ys
        → All (λ y. has (named y.command_id) ks ≡ is_uncertain y) ys
        → All (λ y. has (named y.command_id) (x ∷ ks) ≡ is_uncertain y) ys
    widen ks [] h k = tt
    widen ks (y ∷ ys) h k =
        (rw (==_of_ne x.command_id y.command_id (λ e. h.0 (sym e))) k.0, widen ks ys h.1 k.1)

All-IsFound :
    (rows : List StoredCommand) → IsUnique (λ c. c.command_id) rows → All (IsFound rows) rows
All-IsFound [] u = tt
All-IsFound (x ∷ xs) u = (rw (==_refl x.command_id) refl, widen xs u.0 (All-IsFound xs u.1))
  where
    widen :
        (ys : List StoredCommand)
        → All (λ y. y.command_id ≢ x.command_id) ys
        → All (IsFound xs) ys
        → All (IsFound (x ∷ xs)) ys
    widen [] h k = tt
    widen (y ∷ ys) h k =
        (rw (==_of_ne x.command_id y.command_id (λ e. h.0 (sym e))) k.0, widen ys h.1 k.1)

module _ (uuid : Store → ℕ) where
  -- The commands that were with the adapter, or about to be, are marked, where no transition throws.
  pub mark_uncertain-exact :
      (s : Store)
      → IsUnique (λ c. c.command_id) s.commands
      → RowsAre
          (update is_uncertain (moved_to indeterminate) s.commands)
          (mark_uncertain_indeterminate uuid s)
  unfolding mark_uncertain_indeterminate
  mark_uncertain-exact s u = rw (candidates-keep is_uncertain s (λ c. uncertain_only c.state)) (
      subst (λ rows. RowsAre rows (mark_all uuid (waiting s) 0 s))
        (marked_cong (waiting s) s.commands (
          All-map {Q = λ x. has (named x.command_id) (waiting s) ≡ is_uncertain x}
            (λ x e. has-sort_by (λ c. c.created_at) (named x.command_id) _ ∙ e) s.commands
            (named_uncertain s.commands u)))
        (mark_all-exact uuid (waiting s) 0 s
          (sort_by-IsUnique (λ c. c.created_at) (λ c. c.command_id) (keep is_uncertain s.commands)
            (keep-IsUnique (λ c. c.command_id) is_uncertain s.commands u))
          (sort_by-All (λ c. c.created_at) (IsFound s.commands) (keep is_uncertain s.commands)
            (All-keep (IsFound s.commands) is_uncertain s.commands (All-IsFound s.commands u)))))
