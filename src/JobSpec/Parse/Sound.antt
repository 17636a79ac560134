-- ===== src/JobSpec/Parse/Sound.antt =====
-- What `parse` accepts.
use compute_markets.Prelude.{
  ℕ, ◌≤◌, ◌≡◌, subst, inl, inr, Option-cases, String, List, [], ◌∷◌, length, All, Option, none,
  some, Result, ok, arith, ok-injective, bind_ok,
}
use compute_markets.Prelude.Text.{units}
use compute_markets.Json.{Json, Fields, get}
use compute_markets.JobSpec.{
  ComputeJobSpec, Image, GpuRequest, Resources, Execution, Service, Distributed, ProofKeys, Input,
}
use compute_markets.Json.{str, arr, obj, Items, nil, cons}
use compute_markets.Json.Schema.{
  string, units_within, array, parse_items, required, optional, strict_object, int_within, literal,
}
use compute_markets.JobSpec.Valid.{
  ImageIsValid, ExecutionIsValid, ServiceIsValid, GpuIsValid, DistributedIsValid, ProofIsValid,
  InputIsValid, ResourcesIsValid, IsValid, IfPresent,
}
use compute_markets.JobSpec.Refine.{refine_issues}
use compute_markets.JobSpec.Refine.Laws.{IsConsistent, IsConsistent-of_no_issues}
use compute_markets.JobSpec.Parse.{
  accept, parse, parse_network, parse_verification, parse_security, gpu_keys, resource_keys,
  shape_keys, or_none, parse_image, parse_execution, parse_service, parse_gpu, parse_distributed,
  parse_proof, parse_input, parse_resources, parse_shape, or_none,
}

image_valid : (j : Json) (i : Image) → parse_image j ≡ ok i → ImageIsValid i
unfolding parse_image
image_valid (obj fs) i h = ground arith
image_valid _ i h = cc

execution_valid : (j : Json) (i : Execution) → parse_execution j ≡ ok i → ExecutionIsValid i
unfolding parse_execution
execution_valid (obj fs) i h = ground arith
execution_valid _ i h = cc

service_valid : (j : Json) (i : Service) → parse_service j ≡ ok i → ServiceIsValid i
unfolding parse_service
service_valid (obj fs) i h = ground arith
service_valid _ i h = cc

-- What each item satisfies, all of them do.
module _ {A : Type 0} (P : A → Type 0) (parse_one : Json → Result A) where
  abbrev EachYields : Type 0
  EachYields = (j : Json) (a : A) → parse_one j ≡ ok a → P a

  parse_items-All :
      EachYields → (js : Items) (xs : List A) → parse_items parse_one js ≡ ok xs → All P xs
  parse_items-All each nil [] h = tt
  parse_items-All each nil (x ∷ xs) h = cc
  parse_items-All each (cons j js) [] h = ground arith
  parse_items-All each (cons j js) (x ∷ xs) h =
      (each j x (ground arith), parse_items-All each js xs (ground arith))

  array-All :
      (lo hi : ℕ)
      → EachYields
      → (j : Json) (xs : List A) → array parse_one lo hi j ≡ ok xs
      → All P xs
  array-All lo hi each (arr js) xs h = parse_items-All each js xs (ground arith)
  array-All lo hi each _ xs h = cc

array-length :
    {A : Type 0} (lo hi : ℕ) (parse_one : Json → Result A) (j : Json) (xs : List A)
    → array parse_one lo hi j ≡ ok xs
    → (lo ≤ length xs) × (length xs ≤ hi)
array-length lo hi parse_one (arr js) xs h = ground arith
array-length lo hi parse_one _ xs h = cc

string-units :
    (lo hi : ℕ) (j : Json) (s : String) → string (units_within lo hi) j ≡ ok s → units s ≤ hi
string-units lo hi (str t) s h = ground arith
string-units lo hi _ s h = cc

distributed_valid : (j : Json) (i : Distributed) → parse_distributed j ≡ ok i → DistributedIsValid i
unfolding parse_distributed
distributed_valid (obj fs) i h = ground arith
distributed_valid _ i h = cc

proof_valid : (j : Json) (i : ProofKeys) → parse_proof j ≡ ok i → ProofIsValid i
unfolding parse_proof
proof_valid (obj fs) i h = ground arith
proof_valid _ i h = cc

input_valid : (j : Json) (i : Input) → parse_input j ≡ ok i → InputIsValid i
unfolding parse_input
input_valid (obj fs) i h = ground arith
input_valid _ i h = cc

required_valid :
    {A : Type 0} (P : A → Type 0) (parse_one : Json → Result A) (key : String) (fs : Fields) (a : A)
    → EachYields P parse_one
    → required key parse_one fs ≡ ok a
    → P a
required_valid P parse_one key fs a each h = elim (Option-cases (get key fs)) [
  | inl e ↦ ground arith
  | inr (v, e) ↦ each v a (ground arith)
]

-- The items and the length of an array property.
list_valid :
    {A : Type 0} (P : A → Type 0) (parse_one : Json → Result A) (lo hi : ℕ) (key : String)
    (fs : Fields) (xs : List A)
    → EachYields P parse_one
    → required key (array parse_one lo hi) fs ≡ ok xs
    → All P xs × (lo ≤ length xs) × (length xs ≤ hi)
list_valid P parse_one lo hi key fs xs each =
    required_valid (λ ys. All P ys × (lo ≤ length ys) × (length ys ≤ hi)) (array parse_one lo hi)
      key fs xs
      λ j ys e.
        let bounds = array-length lo hi parse_one j ys e in
        (array-All P parse_one lo hi each j ys e, bounds.0, bounds.1)

models_valid :
    (fs : Fields) (ms : List String)
    → required "allowedModels" (array (string (units_within 0 80)) 0 16) fs ≡ ok ms
    → All (λ s. units s ≤ 80) ms × (0 ≤ length ms) × (length ms ≤ 16)
models_valid fs ms =
    list_valid (λ s. units s ≤ 80) (string (units_within 0 80)) 0 16 "allowedModels" fs ms
      (string-units 0 80)

gpu_valid : (j : Json) (g : GpuRequest) → parse_gpu j ≡ ok g → GpuIsValid g
unfolding parse_gpu
gpu_valid j g h = bind_ok (strict_object gpu_keys j) _ h λ fs _ h₁.
    bind_ok (required "count" (int_within 0 16) fs) _ h₁ λ n en h₂.
      bind_ok (required "minimumVramMb" (int_within 0 200000) fs) _ h₂ λ v ev h₃.
        bind_ok (required "allowedModels" (array (string (units_within 0 80)) 0 16) fs) _ h₃
          λ ms em h₄.
            subst GpuIsValid {x = record { count = n; minimum_vram_mb = v; allowed_models = ms }}
              (ok-injective h₄)
              (record {
                count = ground arith;
                vram = ground arith;
                models = (models_valid fs ms em).2;
                model_units = (models_valid fs ms em).0;
              })

resources_valid : (j : Json) (r : Resources) → parse_resources j ≡ ok r → ResourcesIsValid r
unfolding parse_resources
resources_valid j r h = bind_ok (strict_object resource_keys j) _ h λ fs _ h₁.
    bind_ok (required "gpu" parse_gpu fs) _ h₁ λ g eg h₂.
      bind_ok (required "cpuCores" (int_within 1 128) fs) _ h₂ λ c ec h₃.
        bind_ok (required "ramMb" (int_within 128 1048576) fs) _ h₃ λ m em h₄.
          bind_ok (required "storageMb" (int_within 64 1048576) fs) _ h₄ λ s es h₅.
            subst ResourcesIsValid
              {x = record { gpu = g; cpu_cores = c; ram_mb = m; storage_mb = s }} (ok-injective h₅)
              (record {
                gpu = required_valid GpuIsValid parse_gpu "gpu" fs g gpu_valid eg;
                cpu_cores = ground arith;
                ram_mb = ground arith;
                storage_mb = ground arith;
              })

optional_valid :
    {A : Type 0} (P : A → Type 0) (parse_one : Json → Result A) (key : String) (fs : Fields)
    (o : Option A)
    → EachYields P parse_one
    → optional key parse_one fs ≡ ok o
    → IfPresent P o
optional_valid P parse_one key fs none each h = tt
optional_valid P parse_one key fs (some a) each h = elim (Option-cases (get key fs)) [
  | inl e ↦ absurd (ground arith)
  | inr (v, e) ↦ each v a (ground arith)
]

command_valid :
    (fs : Fields) (xs : List String)
    → required "command" (array (string (units_within 0 4096)) 1 64) fs ≡ ok xs
    → All (λ s. units s ≤ 4096) xs × (1 ≤ length xs) × (length xs ≤ 64)
command_valid fs xs =
    list_valid (λ s. units s ≤ 4096) (string (units_within 0 4096)) 1 64 "command" fs xs
      (string-units 0 4096)

inputs_valid :
    (fs : Fields) (o : Option (List Input))
    → optional "inputs" (array parse_input 0 16) fs ≡ ok o
    → All InputIsValid (or_none o) × (length (or_none o) ≤ 16)
inputs_valid fs none h = (tt, omega arith)
inputs_valid fs (some xs) h =
    optional_valid (λ ys. All InputIsValid ys × (length ys ≤ 16)) (array parse_input 0 16) "inputs"
      fs (some xs)
      (λ j ys e. (
        array-All InputIsValid parse_input 0 16 input_valid j ys e,
        (array-length 0 16 parse_input j ys e).1,
      ))
      h

-- What the schema bounds in the fields of an accepted specification.
shape-IsValid : (j : Json) (spec : ComputeJobSpec) → parse_shape j ≡ ok spec → IsValid spec
unfolding parse_shape
shape-IsValid j spec h = bind_ok (strict_object shape_keys j) _ h λ fs _ h₁.
    bind_ok (required "version" (literal "1") fs) _ h₁ λ _ _ h₂.
      bind_ok (required "runtime" (literal "oci") fs) _ h₂ λ _ _ h₃.
        bind_ok (required "image" parse_image fs) _ h₃ λ image ei h₄.
          bind_ok (required "command" (array (string (units_within 0 4096)) 1 64) fs) _ h₄
            λ command ec h₅.
              bind_ok (required "resources" parse_resources fs) _ h₅ λ resources er h₆.
                bind_ok (required "execution" parse_execution fs) _ h₆ λ execution ee h₇.
                  bind_ok (required "network" parse_network fs) _ h₇ λ _ _ h₈.
                    bind_ok (required "verification" parse_verification fs) _ h₈ λ policy ep h₉.
                      bind_ok (optional "service" parse_service fs) _ h₉ λ service es k₁.
                        bind_ok (optional "distributed" parse_distributed fs) _ k₁
                          λ distributed ed k₂.
                            bind_ok (optional "security" parse_security fs) _ k₂ λ security _ k₃.
                              bind_ok (optional "proof" parse_proof fs) _ k₃ λ keys ek k₄.
                                bind_ok (optional "inputs" (array parse_input 0 16) fs) _ k₄
                                  λ inputs en k₅. subst IsValid (ok-injective k₅) (record {
                                    image =
                                        required_valid ImageIsValid parse_image "image" fs image
                                          image_valid ei;
                                    command = (
                                      (command_valid fs command ec).1,
                                      (command_valid fs command ec).2,
                                    );
                                    command_units = (command_valid fs command ec).0;
                                    resources =
                                        required_valid ResourcesIsValid parse_resources "resources"
                                          fs resources resources_valid er;
                                    execution =
                                        required_valid ExecutionIsValid parse_execution "execution"
                                          fs execution execution_valid ee;
                                    service =
                                        optional_valid ServiceIsValid parse_service "service" fs
                                          service service_valid es;
                                    distributed =
                                        optional_valid DistributedIsValid parse_distributed
                                          "distributed" fs distributed distributed_valid ed;
                                    proof =
                                        optional_valid ProofIsValid parse_proof "proof" fs keys
                                          proof_valid ek;
                                    inputs = (inputs_valid fs inputs en).1;
                                    each_input = (inputs_valid fs inputs en).0;
                                  })

accept-eq_ok :
    (spec accepted : ComputeJobSpec)
    → accept spec (refine_issues spec) ≡ ok accepted
    → (spec ≡ accepted) × (refine_issues spec ≡ [])
unfolding accept
accept-eq_ok spec accepted h = ground arith

-- A specification that the schema accepts has every field within its bounds, and meets the
-- conditions between fields.
pub parse-IsValid :
    (j : Json) (spec : ComputeJobSpec) → parse j ≡ ok spec → IsValid spec × IsConsistent spec
unfolding parse
parse-IsValid j spec h = bind_ok (parse_shape j) _ h λ shape e rest.
    let (same, none_left) = accept-eq_ok shape spec rest in
    subst (λ s. IsValid s × IsConsistent s) same
      (shape-IsValid j shape e, IsConsistent-of_no_issues shape none_left)
