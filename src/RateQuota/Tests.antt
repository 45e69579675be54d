-- ===== src/RateQuota/Tests.antt =====
-- packages/bridge/src/auth/rate-quota.ts: the theorem on a second upload in the same minute.
use pi_mob.Prelude.{ℕ, ◌+◌, ◌≡◌, refl, [], ◌∷◌, List, arith}
use pi_mob.RateQuota.{RateQuotaLimits, Upload, can_upload, outcome_of}
use pi_mob.RateQuota.Rate.{calls_within, can_upload-rate}

abbrev limits : RateQuotaLimits
limits = record {
  uploads_per_minute = 3;
  retained_bytes_per_installation = 1000;
  aggregate_bytes = 5000;
}

abbrev upload_at : ℕ → Upload
upload_at t = record {
  installation_id = 4;
  declared_bytes = 10;
  at = t;
  aggregate = 100;
  retained = 50;
}

abbrev earlier : List Upload
earlier = upload_at 1000 ∷ []

can_upload-rate_example : calls_within 4 2000 earlier + 1 + 1 ≡ 3
unfolding can_upload outcome_of
can_upload-rate_example = can_upload-rate limits earlier (upload_at 2000) 1 (omega arith, tt) refl
