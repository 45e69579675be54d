-- ===== src/Enrollment/Binding.antt =====
-- packages/bridge/src/auth/enrollment.ts: a passcode from its issue to its use.
use pi_mob.Prelude.{ℕ, true, false, ◌++◌, Option, none, some, Bool}
use pi_mob.Store.{Store}
use pi_mob.Enrollment.{Text, BindOutcome, bound, bind_expired, BindInput, passcode_domain}

-- The time that is asked for, five minutes by default.
abbrev pub asked : Option ℕ → ℕ
asked none = 300000
asked (some t) = t

module _ (sha256 : Text → ℕ) (id_text : ℕ → Text) where
  abbrev hash_of : Text → ℕ
  hash_of t = sha256 (passcode_domain ++ t)

  -- What a binding with a good credential ends with, by whether its passcode is still in time.
  abbrev pub due : BindInput → Bool → BindOutcome
  due i true = bound i.credential i.installation_id
  due i false = bind_expired
