-- ===== src/Transport/Tests.antt =====
-- packages/bridge/src/session-events/canonical-event-transport.ts: the theorems on the transport, on a
-- session with two events.
use pi_mob.Prelude.{◌≡◌, refl, false, [], ◌∷◌, ◌++◌, arith, All, map, keep}
use pi_mob.Tables.{CanonicalRecord}
use pi_mob.Store.Samples.{logged_store, second_record}
use pi_mob.SessionLog.Sequenced.{recorded}
use pi_mob.SessionLog.Tests.{logged_store-IsSequenced}
use pi_mob.Transport.{Subscription, Transport, subscribe, deliver_live}
use pi_mob.Transport.Subscribing.{Served, subscribe-Served}
use pi_mob.Transport.CatchUp.{catch_up, CaughtUp, catch_up-exact}
use pi_mob.Transport.Live.{IsLive, is_live_for, deliver_live-IsLive}

abbrev unused : Transport
unused = record { subscriptions = []; sent = [] }

subscribe-Served_example :
    Served unused 1 5 2 0 (subscribe (λ r. 10) 256 1024 unused logged_store 1 5 0)
subscribe-Served_example =
    subscribe-Served (λ r. 10) 256 1024 (omega arith) (omega arith) unused logged_store 1 5 0
      logged_store-IsSequenced (omega arith) tt tt

catch_up-exact_example :
    CaughtUp
      (λ r. 10)
      1
      1024
      logged_store
      1
      5
      0
      (catch_up (λ r. 10) 1 1024 logged_store 1 5 3 unused 0)
catch_up-exact_example =
    catch_up-exact (λ r. 10) 1 1024 logged_store 1 5 (omega arith) (omega arith)
      logged_store-IsSequenced 3 unused 0 (omega arith) (omega arith, tt, tt)

abbrev third_record : CanonicalRecord
third_record = record second_record { sequence = 3; event_id = 52 }

abbrev watcher : Subscription
watcher = record {
  connection_id = 1;
  session_id = 5;
  last_applied_sequence = 2;
  replay_in_flight = false;
  pending = [];
}

abbrev watched : Transport
watched = record { subscriptions = watcher ∷ []; sent = [] }

deliver_live-IsLive_example :
    All
      (IsLive (recorded logged_store third_record))
      (deliver_live (λ r. 10) 256 1024 watched third_record).subscriptions
    × ((deliver_live (λ r. 10) 256 1024 watched third_record).sent
        ≡ []
          ++ map
              (λ u. (u.connection_id, third_record))
              (keep (is_live_for third_record) (watcher ∷ [])))
deliver_live-IsLive_example =
    deliver_live-IsLive (λ r. 10) 256 1024 logged_store third_record refl watched ((tt, refl), tt)
