-- ===== src/Enrollment/Tests.antt =====
-- packages/bridge/src/auth: the theorems as one passcode is issued and used twice. The length of a
-- text stands for its hash.
use pi_mob.Prelude.{ℕ, ◌≤◌, refl, none, some, List, [], ◌∷◌, ◌++◌, keep, length}
use pi_mob.Tables.{Credential, Secret, manual}
use pi_mob.Store.{Store}
use pi_mob.Store.Samples.{empty_store}
use pi_mob.Store.Credentials.Spending.{live}
use pi_mob.Store.Credentials.Revoking.{IsRevoked}
use pi_mob.Enrollment.{Text, BindInput, passcode_of}
use pi_mob.Enrollment.Once.{Request, bind, touch, serve_all, uses, serve_all-once}
use pi_mob.Enrollment.Revoked.{serve_all-IsRevoked}

abbrev id_text : ℕ → Text
id_text n =
    (48 ∷ 48 ∷ 48 ∷ 48 ∷ 48 ∷ 48 ∷ 48 ∷ 48 ∷ 45 ∷ [])
    ++ (48 ∷ 48 ∷ 48 ∷ 48 ∷ 45 ∷ 48 ∷ 48 ∷ 48 ∷ 48 ∷ 45 ∷ [])
    ++ (48 ∷ 48 ∷ 48 ∷ 48 ∷ 45 ∷ 97 ∷ 97 ∷ 97 ∷ 97 ∷ 97 ∷ 97 ∷ 97 ∷ 97 ∷ 97 ∷ 97 ∷ 97 ∷ 97 ∷ [])

abbrev input : BindInput
input = record {
  installation_id = 1;
  plain_passcode = passcode_of 12345;
  credential = 112 ∷ 99 ∷ 95 ∷ 65 ∷ [];
  now = 500;
}

abbrev secret : Secret
secret = record {
  secret_hash = 30;
  created_at = 400;
  expires_at = 9000;
  used_at = none;
  used_by = none;
}

-- One secret, and an installation that is revoked.
abbrev revoked_row : Credential
revoked_row = record {
  installation_id = 1;
  credential_hash = 8;
  enrollment_secret_hash = 30;
  enrollment_source = manual;
  created_at = 1;
  last_seen_at = 1;
  expires_at = none;
  revoked = some (50, 6);
}

abbrev enrolled_store : Store
enrolled_store = record empty_store { secrets = secret ∷ []; credentials = revoked_row ∷ [] }

abbrev requests : List Request
requests = bind input ∷ (touch 1 600 ∷ (bind input ∷ []))

serve_all-once_example :
    length (keep (uses length id_text 30) (serve_all length id_text enrolled_store requests).1)
    ≤ live 30 enrolled_store
serve_all-once_example = serve_all-once length id_text 30 enrolled_store requests

serve_all-IsRevoked_example :
    IsRevoked 1 (50, 6) (serve_all length id_text enrolled_store requests).0
serve_all-IsRevoked_example =
    serve_all-IsRevoked length id_text 1 (50, 6) enrolled_store requests refl
