-- ===== src/Verifier/Decide.antt =====
-- The further evidence that a policy above STANDARD asks for.
use Prim.Native.String
use compute_markets.Prelude.{
  String, Bool, true, false, not, ◌&&◌, List, [], ◌∷◌, ◌++◌, map, filter, take, length, Option,
  none, some, Result, ok, err, str_eq, ltb, if◌then◌else◌,
}
use compute_markets.Prelude.Int.{pos, whole}
use compute_markets.Json.{Json, bool, str, arr, obj, items, end, field}
use compute_markets.Policies.{policy_name, verify_2, verify_3}
use compute_markets.Storage.{text_property}
use compute_markets.Verification.Receipt.{Verdict}
use compute_markets.Verification.Redundancy.{RedundancyVerdict, verify_redundant_results}
use compute_markets.Verifier.{
  Bundle, ChainJob, ReplicaRow, GroupRow, World, Action, return, throw, call, update, ◌>>=◌,
}
use compute_markets.Verifier.Evidence.{Checked}

-- The row of a job; none where it is missing or its `passed` is null.
abbrev pub challenge_result : String → List (String × Option Bool) → Option Bool
challenge_result job [] = none
challenge_result job ((id, passed) ∷ rows) =
    let rest = challenge_result job rows in if str_eq id job then passed else rest

abbrev pub challenged : Verdict → Option Bool → Action Verdict
challenged d none = throw "VERIFY_2 challenge response is pending"
challenged d (some passed) = return (record d {
  passed = passed;
  assurance = verify_2;
  requires_additional_evidence = false;
  failures = if passed then d.failures else d.failures ++ "Hidden challenge failed" ∷ [];
})

unfoldable pub decide_challenge : String → Verdict → Action Verdict
decide_challenge job d w = challenged d (challenge_result job w.challenges) w

abbrev find_replica : String → List ReplicaRow → Option ReplicaRow
find_replica job [] = none
find_replica job (r ∷ rows) =
    let rest = find_replica job rows in if str_eq r.job_id job then some r else rest

abbrev find_group : String → List GroupRow → Option GroupRow
find_group id [] = none
find_group id (g ∷ rows) = let rest = find_group id rows in if str_eq g.id id then some g else rest

abbrev replica_or_throw : Option ReplicaRow → Result ReplicaRow
replica_or_throw none = err "VERIFY_3 replica group is missing"
replica_or_throw (some r) = ok r

abbrev group_or_throw : Option GroupRow → Result GroupRow
group_or_throw none = err "VERIFY_3 replica group is missing"
group_or_throw (some g) = ok g

abbrev own_row : String → ChainJob → Option String → ReplicaRow → ReplicaRow
own_row job j hash r =
    if str_eq r.job_id job
    then record r {
      provider_id = some j.provider;
      machine_id = some j.machine;
      result_hash = hash;
      verify_1_passed = some true;
    }
    else r

-- A value that counts as true: a text that is there and not empty.
abbrev is_filled : Option String → Bool
is_filled none = false
is_filled (some s) = not (str_eq s "")

abbrev is_some_text : Option String → Bool
is_some_text none = false
is_some_text (some s) = true

abbrev is_completed : ReplicaRow → Bool
is_completed r = is_filled r.provider_id && is_filled r.machine_id && is_some_text r.result_hash

-- Null columns do not occur in a completed row.
abbrev text_json : Option String → Json
text_json none = str ""
text_json (some s) = str s

abbrev is_passed : Option Bool → Bool
is_passed none = false
is_passed (some b) = b

abbrev replica_result : ReplicaRow → Json
replica_result r = obj (
    field "jobId" (str r.job_id) (
      field "provider" (text_json r.provider_id) (
        field "machineId" (text_json r.machine_id) (
          field "resultHash" (text_json r.result_hash)
            (field "verify1Passed" (bool (is_passed r.verify_1_passed)) end)))))

-- `redundant.resultHash === bundle.envelope.payload.resultHash`.
abbrev pub same_text : Option String → Option String → Bool
same_text (some a) (some b) = str_eq a b
same_text _ _ = false

unfoldable pub members : String → List ReplicaRow → List ReplicaRow
members group rows = take 5 (filter (λ r. str_eq r.group_id group) rows)

abbrev set_group : String → RedundancyVerdict → GroupRow → GroupRow
set_group id v g =
    if str_eq g.id id
    then record g {
      state = if v.passed then "PASSED" else "DISPUTED";
      consensus_result_hash = v.result_hash;
    }
    else g

abbrev pub redundant_decision : Verdict → RedundancyVerdict → Option String → Verdict
redundant_decision d v hash =
    let passed = v.passed && same_text v.result_hash hash in
    record d {
      passed = passed;
      assurance = verify_3;
      requires_additional_evidence = false;
      failures =
          if passed
          then d.failures
          else d.failures ++ (v.failures ++ "Replica is outside the result quorum" ∷ []);
    }

abbrev throw_if : Bool → String → Result (Unit {0})
throw_if true e = err e
throw_if false e = ok tt

-- The state itself.
abbrev look : Action World
look w = (ok w, w)

unfoldable pub decide_redundant : String → ChainJob → Option String → Verdict → Action Verdict
decide_redundant job j hash d = do
  before ← look
  replica ← call (replica_or_throw (find_replica job before.replicas))
  written ← update (λ w. record w { replicas = map (own_row job j hash) w.replicas })
  w ← look
  group ← call (group_or_throw (find_group replica.group_id w.groups))
  let rows = members replica.group_id w.replicas
  let completed = filter is_completed rows
  enough ← call (
      throw_if (ltb (length completed) group.required_matches)
        "VERIFY_3 is waiting for independent replicas")
  redundant ← call (
      verify_redundant_results (arr (items (map replica_result completed)))
        (whole (pos group.required_matches)))
  settled ← call (
      throw_if (not redundant.passed && ltb (length completed) (length rows))
        "VERIFY_3 is waiting for its tie-breaking replica")
  recorded ← update (λ v. record v { groups = map (set_group replica.group_id redundant) v.groups })
  return (redundant_decision d redundant hash)

unfoldable pub decide : Bundle → Checked → Action Verdict
decide bundle c =
    if c.decision.passed && str_eq (policy_name c.spec.policy) "CHALLENGE"
    then decide_challenge c.job c.decision
    else if c.decision.passed && str_eq (policy_name c.spec.policy) "REDUNDANT"
    then decide_redundant c.job c.chain_job (text_property "resultHash" bundle.envelope.payload)
        c.decision
    else if c.decision.passed && c.decision.requires_additional_evidence
    then throw (
        String.◌++◌ c.decision.requested_assurance
          " evidence is required before an on-chain verification decision")
    else return c.decision
