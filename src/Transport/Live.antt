-- ===== src/Transport/Live.antt =====
-- packages/bridge/src/session-events/canonical-event-transport.ts: live delivery of a record that the
-- log has just taken.
use pi_mob.Prelude.{
  ℕ, zero, suc, ◌+◌, ◌≤◌, ◌≡◌, refl, Bool, true, false, not, ◌&&◌, List, [], ◌∷◌, ◌++◌, arith, leb,
  ◌==◌, ==_iff, keep, map, drop, length, All, All-append, All-map, Bool-cases, inl, inr, subst, sym,
  ap, ◌∙◌,
}
use pi_mob.Tables.{CanonicalRecord}
use pi_mob.Store.{Store}
use pi_mob.SessionLog.{latest_sequence}
use pi_mob.SessionLog.Sequenced.{recorded, latest-bump_same, latest-bump_other}
use pi_mob.Transport.{
  Subscription, Transport, deliver_to, deliver_all, deliver_live, shifted, sent_to,
}
use pi_mob.Transport.Subscribing.{IsLogged}

-- Where a subscription stands: in a replay not beyond the last sequence, and else at it.
abbrev pub Stands : Bool → ℕ → ℕ → Type 0
Stands true applied latest = applied ≤ latest
Stands false applied latest = applied ≡ latest

abbrev pub IsLive : Store → Subscription → Type 0
IsLive s u =
    IsLogged s u
    × Stands u.replay_in_flight u.last_applied_sequence (latest_sequence s u.session_id)

-- The subscriptions that a live record goes to.
abbrev pub is_live_for : CanonicalRecord → Subscription → Bool
is_live_for r u = u.session_id == r.session_id && not u.replay_in_flight

module _ (bytes : CanonicalRecord → ℕ) (batch limit : ℕ) (s : Store) (r : CanonicalRecord)
    (at : r.sequence ≡ latest_sequence s r.session_id + 1) where
  latest-recorded_same :
      (session : ℕ)
      → (session == r.session_id) ≡ true
      → latest_sequence (recorded s r) session ≡ latest_sequence s session + 1
  latest-recorded_same session e =
      subst (λ k. latest_sequence (recorded s r) k ≡ latest_sequence s k + 1)
        (sym ((==_iff session r.session_id).0 e)) (latest-bump_same r.session_id s)

  latest-recorded_other :
      (session : ℕ)
      → (session == r.session_id) ≡ false
      → latest_sequence (recorded s r) session ≡ latest_sequence s session
  latest-recorded_other session e = latest-bump_other r.session_id session s (ground (arith, e))

  next_of :
      (session : ℕ) → (session == r.session_id) ≡ true → r.sequence ≡ latest_sequence s session + 1
  next_of session e =
      subst (λ k. r.sequence ≡ latest_sequence s k + 1) (sym ((==_iff session r.session_id).0 e)) at

  drop-All :
      (P : CanonicalRecord → Type 0) (n : ℕ) (rs : List CanonicalRecord)
      → All P rs
      → All P (drop n rs)
  drop-All P zero rs h = h
  drop-All P (suc n) [] h = tt
  drop-All P (suc n) (q ∷ rs) h = drop-All P n rs h.1

  shifted-All :
      (P : CanonicalRecord → Type 0) (rs : List CanonicalRecord)
      → All P rs
      → All P (shifted bytes batch limit rs)
  shifted-All P rs h = elim (Bool-cases (leb limit (length rs))) [
    | inl e ↦ rw e (drop-All P 1 rs h)
    | inr e ↦ rw e h
  ]

  abbrev Delivered : Subscription → Subscription × Bool → Type 0
  Delivered u (v, b) = IsLive (recorded s r) v × (b ≡ is_live_for r u)

  abbrev made : ℕ → ℕ → ℕ → Bool → List CanonicalRecord → Subscription
  made connection session applied b pending = record {
    connection_id = connection;
    session_id = session;
    last_applied_sequence = applied;
    replay_in_flight = b;
    pending = pending;
  }

  -- A subscription to another session is not touched.
  other-Delivered :
      (u : Subscription)
      → (u.session_id == r.session_id) ≡ false
      → IsLive s u
      → Delivered u (u, false)
  other-Delivered u e h = let same = latest-recorded_other u.session_id e in rw (same, e) (h, refl)

  replaying-Delivered :
      (connection session applied : ℕ) (pending : List CanonicalRecord)
      → (session == r.session_id) ≡ true
      → IsLive s (made connection session applied true pending)
      → Delivered (made connection session applied true pending) (
        made connection session applied true (shifted bytes batch limit pending ++ (r ∷ [])),
        false,
      )
  replaying-Delivered connection session applied pending e (logged, low) =
      let next = latest-recorded_same session e in
      let at_end = next_of session e in
      rw (next, e)
        (
          (
            All-append (λ q. q.sequence ≤ latest_sequence s session + 1)
                (shifted bytes batch limit pending) (r ∷ [])
                (shifted-All (λ q. q.sequence ≤ latest_sequence s session + 1) pending
                  (All-map (λ q l. omega arith) pending logged))
                (omega arith, tt),
            omega arith,
          ),
          refl,
        )

  live-Delivered :
      (connection session applied : ℕ) (pending : List CanonicalRecord)
      → (session == r.session_id) ≡ true
      → IsLive s (made connection session applied false pending)
      → Delivered
          (made connection session applied false pending)
          (made connection session r.sequence false pending, true)
  live-Delivered connection session applied pending e (logged, same) =
      let next = latest-recorded_same session e in
      let at_end = next_of session e in
      rw (next, e) ((All-map (λ q l. omega arith) pending logged, at_end), refl)

  abbrev u_of : ℕ → ℕ → ℕ → Bool → List CanonicalRecord → Subscription × Bool
  u_of connection session applied b pending =
      deliver_to bytes batch limit r (made connection session applied b pending)

  deliver_other :
      (u : Subscription)
      → (u.session_id == r.session_id) ≡ false
      → deliver_to bytes batch limit r u ≡ (u, false)
  unfolding deliver_to
  deliver_other u e = rw e refl

  deliver_replaying :
      (connection session applied : ℕ) (pending : List CanonicalRecord)
      → (session == r.session_id) ≡ true
      → u_of connection session applied true pending ≡ (
        made connection session applied true (shifted bytes batch limit pending ++ (r ∷ [])),
        false,
      )
  unfolding deliver_to
  deliver_replaying connection session applied pending e = rw e refl

  deliver_next :
      (connection session applied : ℕ) (pending : List CanonicalRecord)
      → (session == r.session_id) ≡ true
      → r.sequence ≡ applied + 1
      → u_of connection session applied false pending
        ≡ (made connection session r.sequence false pending, true)
  unfolding deliver_to
  deliver_next connection session applied pending e next =
      let late : leb r.sequence applied ≡ false = ground (arith, next) in
      let is_next : (r.sequence == applied + 1) ≡ true = ground (arith, next) in
      rw (e, late, is_next) refl

  deliver_made :
      (connection session applied : ℕ) (b : Bool) (pending : List CanonicalRecord)
      → IsLive s (made connection session applied b pending)
      → Delivered
          (made connection session applied b pending)
          (u_of connection session applied b pending)
  deliver_made connection session applied b pending h =
      elim (Bool-cases (session == r.session_id)) [
        | inl e ↦ mine b e h
        | inr e ↦
            subst (Delivered (made connection session applied b pending))
              (sym (deliver_other (made connection session applied b pending) e))
              (other-Delivered (made connection session applied b pending) e h)
      ]
    where
      mine :
          (b : Bool)
          → (session == r.session_id) ≡ true
          → IsLive s (made connection session applied b pending)
          → Delivered
              (made connection session applied b pending)
              (u_of connection session applied b pending)
      mine true e h =
          subst (Delivered (made connection session applied true pending))
            (sym (deliver_replaying connection session applied pending e))
            (replaying-Delivered connection session applied pending e h)
      mine false e h =
          subst (Delivered (made connection session applied false pending))
            (sym (
              deliver_next connection session applied pending e
                (next_of session e ∙ ap (λ n. n + 1) (sym h.1))))
            (live-Delivered connection session applied pending e h)

  abbrev DeliveredAll : List Subscription → List Subscription × List (ℕ × CanonicalRecord) → Type 0
  DeliveredAll us (vs, out) =
      All (IsLive (recorded s r)) vs
      × (out ≡ map (λ u. (u.connection_id, r)) (keep (is_live_for r) us))

  sent_to-is :
      (u v : Subscription) (b : Bool) (us : List Subscription) (out : List (ℕ × CanonicalRecord))
      → v.connection_id ≡ u.connection_id
      → b ≡ is_live_for r u
      → out ≡ map (λ w. (w.connection_id, r)) (keep (is_live_for r) us)
      → sent_to bytes batch limit r (v, b) ++ out
        ≡ map (λ w. (w.connection_id, r)) (keep (is_live_for r) (u ∷ us))
  sent_to-is u v true us out same e h = rw (← e, h, same) refl
  sent_to-is u v false us out same e h = rw (← e, h) refl

  same_connection :
      (u : Subscription) → (deliver_to bytes batch limit r u).0.connection_id ≡ u.connection_id
  unfolding deliver_to
  same_connection u = ground arith

  deliver_all-Delivered :
      (us : List Subscription)
      → All (IsLive s) us
      → DeliveredAll us (deliver_all bytes batch limit r us)
  unfolding deliver_all
  deliver_all-Delivered [] h = (tt, refl)
  deliver_all-Delivered (u ∷ us) h =
      let (live, here) =
        deliver_made u.connection_id u.session_id u.last_applied_sequence u.replay_in_flight
          u.pending h.0 in
      let (lives, out) = deliver_all-Delivered us h.1 in
      (
        (live, lives),
        sent_to-is u (deliver_to bytes batch limit r u).0 (deliver_to bytes batch limit r u).1 us
            (deliver_all bytes batch limit r us).1 (same_connection u) here out,
      )

  -- Where no subscription stands beyond its session's last sequence, those that are not in a replay
  -- stand at it, and buffered records are in the log: when the log has taken a session's next record,
  -- its live delivery reaches each subscription of the session that is not in a replay, once and in
  -- their order, and no other; and the same holds of every subscription and the longer log.
  pub deliver_live-IsLive :
      (t : Transport)
      → All (IsLive s) t.subscriptions
      → All (IsLive (recorded s r)) (deliver_live bytes batch limit t r).subscriptions
        × ((deliver_live bytes batch limit t r).sent
            ≡ t.sent ++ map (λ u. (u.connection_id, r)) (keep (is_live_for r) t.subscriptions))
  unfolding deliver_live
  deliver_live-IsLive t h =
      let (lives, out) = deliver_all-Delivered t.subscriptions h in
      (lives, ap (λ o. t.sent ++ o) out)
