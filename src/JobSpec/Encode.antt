-- ===== src/JobSpec/Encode.antt =====
-- The job specification as the JSON object that the program passes on and commits to.
use compute_markets.Prelude.{String, List, Option, map}
use compute_markets.Prelude.Int.{pos}
use compute_markets.Policies.{policy_name}
use compute_markets.Json.{
  Json, Fields, bool, num, str, arr, obj, nil, end, field, field?, items, strings,
}
use compute_markets.JobSpec.{
  ComputeJobSpec, Image, GpuRequest, Resources, Execution, Service, Distributed, Isolation, runc,
  gvisor, tee, Security, ProofSystem, groth16, plonk, ProofKeys, Input,
}
use mathlib.Core.Option

abbrev pub image_json : Image → Json
image_json i = obj (field "repository" (str i.repository) (field "digest" (str i.digest) end))

abbrev pub gpu_json : GpuRequest → Json
gpu_json g = obj (
    field "count" (num (pos g.count)) (
      field "minimumVramMb" (num (pos g.minimum_vram_mb))
        (field "allowedModels" (arr (strings g.allowed_models)) end)))

abbrev pub resources_json : Resources → Json
resources_json r = obj (
    field "gpu" (gpu_json r.gpu) (
      field "cpuCores" (num (pos r.cpu_cores))
        (field "ramMb" (num (pos r.ram_mb)) (field "storageMb" (num (pos r.storage_mb)) end))))

abbrev pub execution_json : Execution → Json
execution_json e = obj (
    field "timeoutSeconds" (num (pos e.timeout_seconds))
      (field "maxStartDelaySeconds" (num (pos e.max_start_delay_seconds)) end))

abbrev pub network_json : Json
network_json = obj (field "mode" (str "deny-by-default") (field "allow" (arr nil) end))

abbrev pub service_json : Service → Json
service_json s = obj (
    field "kind" (str "vllm") (
      field "model" (str s.model) (
        field "contextTokens" (num (pos s.context_tokens)) (
          field "replicas" (num (pos s.replicas))
            (field "durationSeconds" (num (pos s.duration_seconds)) end)))))

abbrev pub distributed_json : Distributed → Json
distributed_json d = obj (
    field "framework" (str "ray") (
      field "workers" (num (pos d.workers)) (
        field "gpusPerWorker" (num (pos d.gpus_per_worker))
          (field "entrypoint" (str d.entrypoint) end))))

abbrev pub isolation_name : Isolation → String
isolation_name runc = "runc"
isolation_name gvisor = "gvisor"
isolation_name tee = "tee"

abbrev pub security_json : Security → Json
security_json s = obj (
    field "isolation" (str (isolation_name s.isolation))
      (field "confidentialGpu" (bool s.confidential_gpu) end))

abbrev pub system_name : ProofSystem → String
system_name groth16 = "groth16"
system_name plonk = "plonk"

abbrev pub proof_json : ProofKeys → Json
proof_json p = obj (
    field "system" (str (system_name p.system)) (
      field "circuitHash" (str p.circuit_hash)
        (field "verificationKeyHash" (str p.verification_key_hash) end)))

abbrev pub input_json : Input → Json
input_json i = obj (field "key" (str i.key) (field "sha256" (str i.sha256) end))

unfoldable pub inputs_json : List Input → Json
inputs_json inputs = arr (items (map input_json inputs))

-- The properties from `service` on; an absent one has no field.
abbrev pub optional_fields :
    Option Service → Option Distributed → Option Security → Option ProofKeys → Json → Fields
optional_fields service distributed security proof inputs =
    field? "service" (Option.map service_json service) (
      field? "distributed" (Option.map distributed_json distributed) (
        field? "security" (Option.map security_json security)
          (field? "proof" (Option.map proof_json proof) (field "inputs" inputs end))))

unfoldable pub job_spec_json : ComputeJobSpec → Json
unfolding inputs_json
job_spec_json spec = obj (
    field "version" (str "1") (
      field "runtime" (str "oci") (
        field "image" (image_json spec.image) (
          field "command" (arr (strings spec.command)) (
            field "resources" (resources_json spec.resources) (
              field "execution" (execution_json spec.execution) (
                field "network" network_json (
                  field "verification" (obj (field "policy" (str (policy_name spec.policy)) end)) (
                    optional_fields spec.service spec.distributed spec.security spec.proof
                      (inputs_json spec.inputs))))))))))
