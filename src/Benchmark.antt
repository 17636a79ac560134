-- ===== src/Benchmark.antt =====
-- packages/benchmark/index.ts. A rate is the JSON number itself; a fraction is above 0 exactly when
-- its printed form has no minus sign.
use compute_markets.Prelude.{
  ℕ, ◌+◌, ◌≤◌, ◌≡◌, ◌↔◌, String, Bool, true, false, not, ◌&&◌, ◌||◌, ◌==◌, List, [], ◌∷◌, Result,
  ok, err, ok-injective, bind_ok, ◌>>=◌, leb, ltb, all, if◌then◌else◌, arith, subst,
}
use compute_markets.Prelude.Int.{pos, leb_ℤ, sub_ℕ}
use compute_markets.Prelude.Text.{codes, is_digit, is_hash, is_digest}
use compute_markets.Json.{Json, num, fraction, Fields}
use compute_markets.Json.Schema.{
  strict_object, required, string, array, int_within, literal, max_safe_integer,
}
use compute_markets.Receipts.{Libraries}
use compute_markets.Receipts.Receipt.{at_least, timestamp}

pub record GpuReport : Type 0 where
  pub uuid : String
  pub vram_mb : ℕ

pub record BenchmarkReport : Type 0 where
  pub cluster : String
  pub program : String
  pub machine_id : String
  pub worker : String
  pub hardware_report_hash : String
  pub image_digest : String
  pub started_at : ℕ
  pub finished_at : ℕ
  pub cpu_sha256_mib_per_second : Json
  pub disk_write_mib_per_second : Json
  pub gpu : List GpuReport
  pub nonce : String

abbrev starts_with_minus : List ℕ → Bool
starts_with_minus [] = false
starts_with_minus (c ∷ cs) = c == b'-'

-- `value > 0`.
abbrev pub is_positive : Json → Bool
is_positive (num (pos n)) = ltb 0 n
is_positive (fraction f) = not (starts_with_minus (codes f))
is_positive _ = false

-- `z.number().positive()`.
abbrev positive : Json → Result Json
positive json = if is_positive json then ok json else err "Invalid number"

abbrev is_uuid_code : ℕ → Bool
is_uuid_code c =
    is_digit c || (leb b'a' c && leb c b'f') || (leb b'A' c && leb c b'F') || (c == b'-')

abbrev after_gpu : List ℕ → Bool
after_gpu [] = false
after_gpu (c ∷ cs) = all is_uuid_code (c ∷ cs)

abbrev gpu_codes : List ℕ → Bool
gpu_codes (g ∷ p ∷ u ∷ d ∷ cs) =
    (g == b'G') && (p == b'P') && (u == b'U') && (d == b'-') && after_gpu cs
gpu_codes _ = false

-- `/^GPU-[a-fA-F0-9-]+$/`.
unfoldable pub is_gpu_uuid : String → Bool
is_gpu_uuid s = gpu_codes (codes s)

unfoldable pub parse_gpu : Json → Result GpuReport
parse_gpu json = do
  fs ← strict_object ("uuid" ∷ "vramMb" ∷ []) json
  uuid ← required "uuid" (string is_gpu_uuid) fs
  vram ← required "vramMb" (int_within 1 max_safe_integer) fs
  ok (record { uuid = uuid; vram_mb = vram })

abbrev benchmark_keys : List String
benchmark_keys =
    "version" ∷ "domain" ∷ "cluster" ∷ "program" ∷ "machineId" ∷ "worker" ∷ "hardwareReportHash"
    ∷ "imageDigest" ∷ "startedAt" ∷ "finishedAt" ∷ "cpuSha256MibPerSecond" ∷ "diskWriteMibPerSecond"
    ∷ "gpu" ∷ "nonce" ∷ []

unfoldable pub parse_benchmark : Libraries → Json → Result BenchmarkReport
parse_benchmark libraries json = do
  fs ← strict_object benchmark_keys json
  version ← required "version" (literal "1") fs
  domain ← required "domain" (literal "vericompute:benchmark:v1") fs
  cluster ← required "cluster" (at_least 1) fs
  program ← required "program" (at_least 32) fs
  machine ← required "machineId" (at_least 32) fs
  worker ← required "worker" (at_least 32) fs
  hardware ← required "hardwareReportHash" (string is_hash) fs
  image ← required "imageDigest" (string is_digest) fs
  started ← required "startedAt" timestamp fs
  finished ← required "finishedAt" timestamp fs
  cpu ← required "cpuSha256MibPerSecond" positive fs
  disk ← required "diskWriteMibPerSecond" positive fs
  gpu ← required "gpu" (array parse_gpu 0 max_safe_integer) fs
  nonce ← required "nonce" (string libraries.is_uuid) fs
  ok (record {
    cluster = cluster;
    program = program;
    machine_id = machine;
    worker = worker;
    hardware_report_hash = hardware;
    image_digest = image;
    started_at = started;
    finished_at = finished;
    cpu_sha256_mib_per_second = cpu;
    disk_write_mib_per_second = disk;
    gpu = gpu;
    nonce = nonce;
  })

unfoldable pub benchmark_passed : BenchmarkReport → Bool
benchmark_passed report =
    leb report.started_at report.finished_at
    && leb_ℤ (sub_ℕ report.finished_at report.started_at) (pos 300)
    && is_positive report.cpu_sha256_mib_per_second
    && is_positive report.disk_write_mib_per_second

positive_value :
    (fs : Fields) (key : String) (value : Json)
    → required key positive fs ≡ ok value
    → is_positive value ≡ true
positive_value fs key value h = ground arith

rates_positive :
    (libraries : Libraries) (json : Json) (report : BenchmarkReport)
    → parse_benchmark libraries json ≡ ok report
    → (is_positive report.cpu_sha256_mib_per_second ≡ true)
      × (is_positive report.disk_write_mib_per_second ≡ true)
unfolding parse_benchmark
rates_positive libraries json report h =
    bind_ok (strict_object benchmark_keys json) _ h λ fs e_fs h1.
      bind_ok (required "version" (literal "1") fs) _ h1 λ version e_version h2.
        bind_ok (required "domain" (literal "vericompute:benchmark:v1") fs) _ h2
          λ domain e_domain h3.
            bind_ok (required "cluster" (at_least 1) fs) _ h3 λ cluster e_cluster h4.
              bind_ok (required "program" (at_least 32) fs) _ h4 λ program e_program h5.
                bind_ok (required "machineId" (at_least 32) fs) _ h5 λ machine e_machine h6.
                  bind_ok (required "worker" (at_least 32) fs) _ h6 λ worker e_worker h7.
                    bind_ok (required "hardwareReportHash" (string is_hash) fs) _ h7
                      λ hardware e_hardware h8.
                        bind_ok (required "imageDigest" (string is_digest) fs) _ h8
                          λ image e_image h9.
                            bind_ok (required "startedAt" timestamp fs) _ h9
                              λ started e_started h10.
                                bind_ok (required "finishedAt" timestamp fs) _ h10
                                  λ finished e_finished h11.
                                    bind_ok (required "cpuSha256MibPerSecond" positive fs) _ h11
                                      λ cpu e_cpu h12.
                                        bind_ok (required "diskWriteMibPerSecond" positive fs) _ h12
                                          λ disk e_disk h13.
                                            bind_ok
                                              (required "gpu" (array parse_gpu 0 max_safe_integer)
                                                fs)
                                              _ h13
                                              λ gpu e_gpu h14.
                                                bind_ok
                                                  (required "nonce" (string libraries.is_uuid) fs) _
                                                  h14
                                                  λ nonce e_nonce h15.
                                                    subst
                                                      (λ r.
                                                        (is_positive r.cpu_sha256_mib_per_second
                                                          ≡ true)
                                                        × (is_positive r.disk_write_mib_per_second
                                                            ≡ true))
                                                      (ok-injective h15)
                                                      (
                                                        positive_value fs "cpuSha256MibPerSecond"
                                                            cpu e_cpu,
                                                        positive_value fs "diskWriteMibPerSecond"
                                                            disk e_disk,
                                                      )

-- A report that the schema reads passes exactly when it ends no earlier than it starts and within
-- 300 seconds: the rates that the schema lets through are all positive.
pub benchmark_passed_iff :
    (libraries : Libraries) (json : Json) (report : BenchmarkReport)
    → parse_benchmark libraries json ≡ ok report
    → (benchmark_passed report ≡ true)
      ↔ ((report.started_at ≤ report.finished_at) × (report.finished_at ≤ report.started_at + 300))
unfolding benchmark_passed
benchmark_passed_iff libraries json report h =
    let rates = rates_positive libraries json report h in ground arith
