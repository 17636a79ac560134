-- ===== src/JobSpec/Tests.antt =====
-- The specification of tests/core.test.ts, and the theorems at it.
use compute_markets.Prelude.{◌≡◌, refl, [], ◌∷◌, ok}
use compute_markets.Policies.{tee}
use compute_markets.Samples.{sample_spec, sample-IsValid, sample-IsConsistent}
use compute_markets.JobSpec.Valid.{IsValid}
use compute_markets.JobSpec.Refine.{refine_issues}
use compute_markets.JobSpec.Refine.Laws.{IsConsistent}
use compute_markets.JobSpec.Encode.{job_spec_json}
use compute_markets.JobSpec.Parse.{parse}
use compute_markets.JobSpec.Parse.Sound.{parse-IsValid}
use compute_markets.JobSpec.Parse.RoundTrip.{parse-job_spec_json}

parse-job_spec_json_example : parse (job_spec_json sample_spec) ≡ ok sample_spec
parse-job_spec_json_example = parse-job_spec_json sample_spec sample-IsValid sample-IsConsistent

parse-IsValid_example : IsValid sample_spec × IsConsistent sample_spec
parse-IsValid_example =
    parse-IsValid (job_spec_json sample_spec) sample_spec parse-job_spec_json_example

-- A TEE policy without TEE isolation is refused.
tee_issues :
    refine_issues (record sample_spec { policy = tee })
    ≡ "TEE verification requires TEE isolation" ∷ []
unfolding refine_issues
tee_issues = refl
