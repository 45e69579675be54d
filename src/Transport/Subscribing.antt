-- ===== src/Transport/Subscribing.antt =====
-- packages/bridge/src/session-events/canonical-event-transport.ts: what one `subscribe` returns.
use pi_mob.Prelude.{
  ℕ, ◌+◌, ◌-◌, ◌≤◌, ◌<◌, ◌≡◌, refl, Bool, true, false, not, ◌&&◌, Option, none, some, List, [],
  arith, ltb, leb, ◌==◌, if◌then◌else◌, first-All, first_test, length, min, Result, ok, err, Run,
  All, inl, inr, subst, sym, ap, ◌∙◌,
}
use pi_mob.Tables.{CanonicalRecord}
use pi_mob.Store.{Store}
use pi_mob.SessionLog.{latest_sequence, read_after, max_limit}
use pi_mob.SessionLog.Sequenced.{IsSequenced}
use pi_mob.SessionLog.Reading.{read_after-Run}
use pi_mob.Transport.{
  Subscription, Transport, ReplayResult, TransportError, Page, replay_page, drained, paged,
  subscribe_with, subscribe_found, subscribe, fresh, find_subscription, is_for, set_subscription,
}
use pi_mob.Transport.Paging.{
  IsPage, start, FirstReplayed, replay_page-first, drain_short-cases, is_complete-exact,
}

-- Every buffered record of a subscription is in the log.
abbrev pub IsLogged : Store → Subscription → Type 0
IsLogged s u = All (λ r. r.sequence ≤ latest_sequence s u.session_id) u.pending

-- The subscription that a page leaves.
abbrev pub left_by : ℕ → ℕ → ℕ → ℕ → List CanonicalRecord → Subscription
left_by connection session latest cursor pending = record {
  connection_id = connection;
  session_id = session;
  last_applied_sequence = cursor;
  replay_in_flight = not (leb latest cursor);
  pending = pending;
}

-- What a page promises to a client at the sequence `after`: the records behind it, in order and one
-- at least if there are any; `complete` exactly if they reach the last one; and a subscription that
-- goes on from there, which is in replay unless the page is complete.
abbrev pub Served :
    Transport → ℕ → ℕ → ℕ → ℕ → Transport × Result TransportError ReplayResult → Type 0
Served t connection session latest after (t', err e) = ⊥
Served t connection session latest after (t', ok o) =
    Run (λ r. r.sequence) after o.events
    × (after + length o.events ≤ latest)
    × (after + min 1 (latest - after) ≤ after + length o.events)
    × (o.latest_sequence ≡ latest)
    × (o.complete ≡ leb latest (after + length o.events))
    × ((pending : List CanonicalRecord) × All (λ r. r.sequence ≤ latest) pending
        × (t' ≡ record t {
          subscriptions =
              set_subscription (left_by connection session latest (after + length o.events) pending)
                t.subscriptions;
        }))

module _ (bytes : CanonicalRecord → ℕ) (batch limit : ℕ) (one : 1 ≤ batch)
    (most : batch ≤ max_limit) where
  module _ (t : Transport) (s : Store) (c : IsSequenced s) (u : Subscription) (after : ℕ)
      (low : after ≤ latest_sequence s u.session_id) (logged : IsLogged s u) where
    abbrev page : List CanonicalRecord
    page = read_after s u.session_id after (some batch)

    page-Run : Run (λ r. r.sequence) after page
    page-Run = (read_after-Run s c u.session_id after low batch).0

    page-length : length page ≡ min batch (latest_sequence s u.session_id - after)
    page-length = (read_after-Run s c u.session_id after low batch).1 ∙ omega arith

    reached :
        (p : Page)
        → IsPage after p
        → ((length p.replay == length page) && ltb (length p.replay) batch) ≡ true
        → latest_sequence s u.session_id ≤ p.cursor
    reached p (run, count) h =
        let full : length p.replay ≡ length page = ground (arith, h) in
        let short : length p.replay < batch = ground (arith, h) in omega (arith, page-length)

    abbrev Goal : Transport × Result TransportError ReplayResult → Type 0
    Goal = Served t u.connection_id u.session_id (latest_sequence s u.session_id) after

    finished :
        (p : Page) (pending : List CanonicalRecord)
        → FirstReplayed bytes batch limit after page (ok p)
        → All (λ r. r.sequence ≤ latest_sequence s u.session_id) pending
        → Goal (drained bytes batch limit t s u (ok (p, pending)))
    unfolding drained
    finished p pending ((run, count), some_one, high) h =
        let exact =
          is_complete-exact bytes batch limit p pending (latest_sequence s u.session_id) h in
        (
          run,
          omega (arith, page-length),
          omega (arith, page-length),
          refl,
          exact ∙ ap (leb (latest_sequence s u.session_id)) (sym count),
          (pending, h, rw (exact, count) refl),
        )

    paged-Served :
        (o : Result Page Page)
        → FirstReplayed bytes batch limit after page o
        → Goal (paged bytes batch limit t s u (length page) o)
    unfolding paged
    paged-Served (err p) h = absurd h
    paged-Served (ok p) h =
        elim (drain_short-cases bytes batch limit p (length page) (latest_sequence s u.session_id)
          u.pending logged (reached p h.0)) [
            | inl e ↦ rw e (finished p [] h tt)
            | inr e ↦ rw e (finished p u.pending h logged)
          ]

    subscribe_with-Served : Goal (subscribe_with bytes batch limit t s u after)
    unfolding subscribe_with
    subscribe_with-Served =
        paged-Served (replay_page bytes batch limit (start bytes batch limit after) page)
          (replay_page-first bytes batch limit after page page-Run)

  -- A client that goes on with a replay in flight asks from where the replay stands.
  abbrev pub Matches : ℕ → Option Subscription → Type 0
  Matches after none = Unit
  Matches after (some u) = (u.replay_in_flight && not (after == u.last_applied_sequence)) ≡ false

  -- The branches of `subscribe` on a subscription that matches.
  chosen :
      (G : Transport × Result TransportError ReplayResult → Type 0) (in_flight same : Bool)
      (x y z : Transport × Result TransportError ReplayResult)
      → (in_flight && not same) ≡ false
      → G x
      → G z
      → G (if in_flight then (if same then x else y) else z)
  chosen G true true x y z m gx gz = gx
  chosen G true false x y z m gx gz = cc
  chosen G false same x y z m gx gz = gz

  found-Served :
      (t : Transport) (s : Store) (connection session after : ℕ) (o : Option Subscription)
      → IsSequenced s
      → after ≤ latest_sequence s session
      → All (IsLogged s) t.subscriptions
      → find_subscription connection session t ≡ o
      → Matches after o
      → Served t connection session
          (latest_sequence s session)
          after
          (subscribe_found bytes batch limit t s connection session after o)
  unfolding subscribe_found
  found-Served t s connection session after none c low logged e m =
      subscribe_with-Served t s c (fresh bytes batch limit connection session after) after low tt
  found-Served t s connection session after (some u) c low logged e m =
      let test : is_for connection session u ≡ true =
        first_test (is_for connection session) t.subscriptions u e in
      let same_connection : u.connection_id ≡ connection = ground (arith, test) in
      let same_session : u.session_id ≡ session = ground (arith, test) in
      let mine : IsLogged s u =
        first-All (IsLogged s) (is_for connection session) t.subscriptions u logged e in
      chosen (Served t connection session (latest_sequence s session) after) u.replay_in_flight
        (after == u.last_applied_sequence) (subscribe_with bytes batch limit t s u after) _ _ m
        (subst
          (λ k.
            Served t k session (latest_sequence s session) after
              (subscribe_with bytes batch limit t s u after))
          same_connection
          (subst
            (λ k.
              Served t u.connection_id k (latest_sequence s k) after
                (subscribe_with bytes batch limit t s u after))
            same_session
            (subscribe_with-Served t s c u after
              (subst (λ k. after ≤ latest_sequence s k) (sym same_session) low) mine)))
        (subscribe_with-Served t s c (fresh bytes batch limit connection session after) after low
          tt)

  -- With a batch from 1 to 4096, on sequenced logs whose records include the buffered ones: a
  -- `subscribe` from a sequence that is not beyond the session's last one, and where a replay in
  -- flight stands if there is one, serves the client without a gap.
  pub subscribe-Served :
      (t : Transport) (s : Store) (connection session after : ℕ)
      → IsSequenced s
      → after ≤ latest_sequence s session
      → All (IsLogged s) t.subscriptions
      → Matches after (find_subscription connection session t)
      → Served t connection session
          (latest_sequence s session)
          after
          (subscribe bytes batch limit t s connection session after)
  unfolding subscribe
  subscribe-Served t s connection session after c low logged m =
      found-Served t s connection session after (find_subscription connection session t) c low
        logged refl m
