-- ===== src/Transport/CatchUp.antt =====
-- packages/bridge/src/session-events/canonical-event-transport.ts: a client that repeats `subscribe`
-- with the cursor it has reached, until a page is complete.
use pi_mob.Prelude.{
  ℕ, zero, suc, ◌+◌, ◌≤◌, ◌<◌, ◌≡◌, refl, true, false, not, Option, none, some, List, [], ◌∷◌, ◌++◌,
  arith, leb, ==_refl, if◌then◌else◌, first, has, ◌==◌, ◌&&◌, length, length-append, Result, ok,
  err, Run, Run-append, All, Bool-cases, inl, inr, subst, sym, ◌∙◌,
}
use pi_mob.Tables.{CanonicalRecord}
use pi_mob.Store.{Store}
use pi_mob.SessionLog.{latest_sequence, max_limit}
use pi_mob.SessionLog.Sequenced.{IsSequenced}
use pi_mob.Transport.{
  Subscription, Transport, ReplayResult, TransportError, subscribe, find_subscription, is_for,
  set_subscription,
}
use pi_mob.Transport.Subscribing.{IsLogged, left_by, Served, Matches, subscribe-Served}

module _ (bytes : CanonicalRecord → ℕ) (batch limit : ℕ) (s : Store) (connection session : ℕ) where
  abbrev prepend :
      List CanonicalRecord
      → Transport × Option (List CanonicalRecord)
      → Transport × Option (List CanonicalRecord)
  prepend es (t, none) = (t, none)
  prepend es (t, some fs) = (t, some (es ++ fs))

  abbrev next_page :
      (Transport → ℕ → Transport × Option (List CanonicalRecord))
      → ℕ
      → Transport × Result TransportError ReplayResult
      → Transport × Option (List CanonicalRecord)
  next_page rest after (t, err e) = (t, none)
  next_page rest after (t, ok o) =
      if o.complete then (t, some o.events) else prepend o.events (rest t (after + length o.events))

  -- The records that the client reads, with at most as many pages as the fuel.
  abbrev pub catch_up : ℕ → Transport → ℕ → Transport × Option (List CanonicalRecord)
  catch_up zero t after = (t, none)
  catch_up (suc n) t after =
      next_page (catch_up n) after (subscribe bytes batch limit t s connection session after)

  find-set :
      (u : Subscription) (us : List Subscription)
      → first (is_for u.connection_id u.session_id) (set_subscription u us) ≡ some u
  find-set u [] = rw (==_refl u.connection_id, ==_refl u.session_id) refl
  find-set u (o ∷ us) = elim (Bool-cases (is_for u.connection_id u.session_id o)) [
    | inl e ↦ rw (e, ==_refl u.connection_id, ==_refl u.session_id) refl
    | inr e ↦
        elim (Bool-cases (
          o.connection_id == u.connection_id
          && not (has (λ v. v.connection_id == u.connection_id) us))) [
            | inl k ↦ rw (e, k, e, ==_refl u.connection_id, ==_refl u.session_id) refl
            | inr k ↦ rw (e, k, e) (find-set u us)
          ]
  ]

  set-All :
      (P : Subscription → Type 0) (u : Subscription) (us : List Subscription)
      → P u
      → All P us
      → All P (set_subscription u us)
  set-All P u [] h k = (h, tt)
  set-All P u (o ∷ us) h k = elim (Bool-cases (is_for u.connection_id u.session_id o)) [
    | inl e ↦ rw e (h, k.1)
    | inr e ↦
        elim (Bool-cases (
          o.connection_id == u.connection_id
          && not (has (λ v. v.connection_id == u.connection_id) us))) [
            | inl f ↦ rw (e, f) (k.0, (h, k.1))
            | inr f ↦ rw (e, f) (k.0, set-All P u us h k.1)
          ]
  ]

  abbrev pub CaughtUp : ℕ → Transport × Option (List CanonicalRecord) → Type 0
  CaughtUp after (t, none) = ⊥
  CaughtUp after (t, some es) =
      Run (λ r. r.sequence) after es × (after + length es ≡ latest_sequence s session)

  prepend-CaughtUp :
      (after : ℕ) (es : List CanonicalRecord) (o : Transport × Option (List CanonicalRecord))
      → Run (λ r. r.sequence) after es
      → CaughtUp (after + length es) o
      → CaughtUp after (prepend es o)
  prepend-CaughtUp after es (t, none) run h = h
  prepend-CaughtUp after es (t, some fs) run (run', count) =
      (Run-append (λ r. r.sequence) after es fs run run', omega (arith, length-append es fs))

  module _ (one : 1 ≤ batch) (most : batch ≤ max_limit) (c : IsSequenced s) where
    -- The client's subscription fits the sequence that the client has reached.
    abbrev pub IsReady : Transport → ℕ → Type 0
    IsReady t after =
        (after ≤ latest_sequence s session)
        × All (IsLogged s) t.subscriptions
        × Matches bytes batch limit one most after (find_subscription connection session t)

    left-IsReady :
        (t : Transport) (cursor : ℕ) (pending : List CanonicalRecord)
        → cursor ≤ latest_sequence s session
        → All (IsLogged s) t.subscriptions
        → All (λ r. r.sequence ≤ latest_sequence s session) pending
        → IsReady
            (record t {
              subscriptions =
                  set_subscription
                    (left_by connection session (latest_sequence s session) cursor pending)
                    t.subscriptions;
            })
            cursor
    left-IsReady t cursor pending low logged h =
        let u = left_by connection session (latest_sequence s session) cursor pending in
        let found = find-set u t.subscriptions in
        (
          low,
          set-All (IsLogged s) u t.subscriptions h logged,
          subst (Matches bytes batch limit one most cursor) (sym found)
              (rw (==_refl cursor) (ground arith)),
        )

    next_page-CaughtUp :
        (n : ℕ) (t : Transport) (after : ℕ) (o : Transport × Result TransportError ReplayResult)
        → latest_sequence s session < after + suc n
        → IsReady t after
        → ((t' : Transport) (k : ℕ)
            → latest_sequence s session < k + n
            → IsReady t' k
            → CaughtUp k (catch_up n t' k))
        → Served t connection session (latest_sequence s session) after o
        → CaughtUp after (next_page (catch_up n) after o)
    next_page-CaughtUp n t after (t', err e) enough ready rest h = absurd h
    next_page-CaughtUp n t after (t', ok o) enough ready rest
          (run, low, some_one, latest, complete, (pending, logged, left)) =
        elim (Bool-cases o.complete) [
          | inl e ↦
              let all : leb (latest_sequence s session) (after + length o.events) ≡ true =
                sym complete ∙ e in
              rw e (run, ground arith)
          | inr e ↦
              let more : leb (latest_sequence s session) (after + length o.events) ≡ false =
                sym complete ∙ e in
              let below : after + length o.events < latest_sequence s session = ground arith in
              rw e (
                prepend-CaughtUp after o.events (catch_up n t' (after + length o.events)) run (
                  rest t' (after + length o.events) (omega arith) (
                    subst (λ v. IsReady v (after + length o.events)) (sym left)
                      (left-IsReady t (after + length o.events) pending low ready.1 logged))))
        ]

    -- With a batch from 1 to 4096, on sequenced logs whose records include the buffered ones, and with
    -- more pages allowed than there are records to read: a client that catches up from a sequence that
    -- is not beyond the session's last one, and where a replay in flight stands if there is one, ends
    -- with a complete page, having read every record behind its sequence up to the last one, each once
    -- and in order.
    pub catch_up-exact :
        (n : ℕ) (t : Transport) (after : ℕ)
        → latest_sequence s session < after + n
        → IsReady t after
        → CaughtUp after (catch_up n t after)
    catch_up-exact zero t after enough ready = absurd (omega (arith, ready.0))
    catch_up-exact (suc n) t after enough ready =
        next_page-CaughtUp n t after (subscribe bytes batch limit t s connection session after)
          enough ready (λ t' k e r. catch_up-exact n t' k e r)
          (subscribe-Served bytes batch limit one most t s connection session after c ready.0
            ready.1 ready.2)
