-- ===== src/Profiler/Lists.antt =====
-- The lists of an advertisement fit its count of GPUs.
use tasch.Base.{
  ℕ, zero, suc, ◌≤◌, ◌<◌, ◌≡◌, ◌≢◌, refl, ap, eq_iff, ◌⊎◌, inl, inr, String, ℤ, pos, Bool, true,
  false, Bool-cases, Option, none, some, Option-cases, List, [], ◌∷◌, length, arith, ltb,
}
use tasch.Numbers.{trim_space}
use tasch.Profiler.Text.{split_lines}
use tasch.Profiler.Gpus.{
  table, Gpus, no_gpus, nvidia_card, nvidia_cards, detect_nvidia, amd_models, amd_memory, pad,
  repeat, count_amd_lines, detect_amd_fallback, RocmSmi, detect_amd, detect_jetson, Probes,
  detect_gpus,
}
use tasch.Profiler.Ad.{Facts, class_ad}

-- Each GPU that is counted has a model and an amount of memory.
pub record Fits (g : Gpus) : Type 0 where
  pub models : length g.models ≡ g.count
  pub memory : g.count ≤ length g.memory_mb

no_gpus-Fits : Fits no_gpus
no_gpus-Fits = record { models = refl; memory = omega arith }

nvidia_cards-length :
    (lines : List String) → length (nvidia_cards lines).1 ≡ length (nvidia_cards lines).0
unfolding nvidia_cards
nvidia_cards-length [] = refl
nvidia_cards-length (line ∷ lines) = elim (Option-cases (nvidia_card line)) [
  | inl skipped ↦ rw (skipped, nvidia_cards) (nvidia_cards-length lines)
  | inr (card, read) ↦ rw (read, nvidia_cards) (ap suc (nvidia_cards-length lines))
]

detect_nvidia-Fits : (query plain : Option String) → Fits (detect_nvidia query plain)
unfolding detect_nvidia
detect_nvidia-Fits none plain = no_gpus-Fits
detect_nvidia-Fits (some out) plain = record {
  models = refl;
  memory = omega (arith, nvidia_cards-length (split_lines (trim_space out)));
}

length-pad : (n : ℕ) (memory : List ℤ) → n ≤ length (pad n memory)
unfolding pad
length-pad zero memory = omega arith
length-pad (suc n) [] = omega (arith, length-pad n [])
length-pad (suc n) (mb ∷ memory) = omega (arith, length-pad n memory)

length-repeat {ℓ} : {A : Type ℓ} (n : ℕ) (a : A) → length (repeat n a) ≡ n
length-repeat zero a = refl
length-repeat (suc n) a = ap suc (length-repeat n a)

detect_amd_fallback-Fits : (plain : Option String) → Fits (detect_amd_fallback plain)
unfolding detect_amd_fallback
detect_amd_fallback-Fits none = no_gpus-Fits
detect_amd_fallback-Fits (some out) =
    let n = count_amd_lines (split_lines out) in
    record { models = length-repeat n "AMD GPU"; memory = omega (arith, length-repeat n (pos 0)) }

detect_amd-Fits : (smi : Option RocmSmi) → Fits (detect_amd smi)
unfolding detect_amd
detect_amd-Fits none = no_gpus-Fits
detect_amd-Fits (some smi) = elim (Option-cases smi.product_names) [
  | inl bare ↦ simp (detect_amd, bare) (detect_amd_fallback-Fits smi.plain)
  | inr (out, read) ↦
      simp (detect_amd, read)
        (record {
          models = refl;
          memory =
              length-pad (length (amd_models (table (some out)))) (amd_memory (table smi.vram));
        })
]

detect_jetson-Fits :
    (there : Bool) (meminfo model : Option String) → Fits (detect_jetson there meminfo model)
unfolding detect_jetson
detect_jetson-Fits false meminfo model = no_gpus-Fits
detect_jetson-Fits true meminfo model = record { models = refl; memory = omega arith }

-- What DetectGPUs gives: a vendor exactly where there is a GPU.
pub record Detected (d : Gpus × String) : Type 0 where
  pub fits : Fits d.0
  pub vendor :
      ((d.0.count ≡ 0) × (d.1 ≡ "")) ⊎ ((0 < d.0.count) × ((d.1 ≡ "nvidia") ⊎ (d.1 ≡ "amd")))

detect_gpus-Detected : (p : Probes) → Detected (detect_gpus p)
unfolding detect_gpus
detect_gpus-Detected p =
    let nvidia = detect_nvidia p.nvidia_query p.nvidia_plain in
    let amd = detect_amd p.rocm in
    let jetson = detect_jetson p.jetson p.meminfo p.jetson_model in
    elim (Bool-cases (ltb 0 nvidia.count)) [
      | inl some_nvidia ↦
          rw (detect_gpus, some_nvidia)
            (record {
              fits = detect_nvidia-Fits p.nvidia_query p.nvidia_plain;
              vendor = inr (ground arith, inl refl);
            })
      | inr no_nvidia ↦ elim (Bool-cases (ltb 0 amd.count)) [
        | inl some_amd ↦
            rw (detect_gpus, no_nvidia, some_amd)
              (record { fits = detect_amd-Fits p.rocm; vendor = inr (ground arith, inr refl) })
        | inr no_amd ↦ elim (Bool-cases (ltb 0 jetson.count)) [
          | inl some_jetson ↦
              rw (detect_gpus, no_nvidia, no_amd, some_jetson)
                (record {
                  fits = detect_jetson-Fits p.jetson p.meminfo p.jetson_model;
                  vendor = inr (ground arith, inl refl);
                })
          | inr no_jetson ↦
              rw (detect_gpus, no_nvidia, no_amd, no_jetson)
                (record { fits = no_gpus-Fits; vendor = inl (refl, refl) })
        ]
      ]
    ]

-- The advertisement of a node, whatever the probes of its GPUs give: it lists as many models as it
-- counts GPUs and an amount of memory for each; it names a vendor exactly where it counts a GPU; and
-- the version of CUDA stands only beside nvidia, that of ROCm only beside amd.
pub class_ad-consistent :
    (f : Facts) (amounts : ℕ × ℕ) (cpus : List String) (p : Probes)
    → let ad = class_ad f amounts cpus (detect_gpus p) in
      (length ad.gpu_models ≡ ad.gpu_count)
      × (ad.gpu_count ≤ length ad.gpu_memory_mb)
      × (((ad.gpu_count ≡ 0) × (ad.gpu_vendor ≡ ""))
          ⊎ ((0 < ad.gpu_count) × ((ad.gpu_vendor ≡ "nvidia") ⊎ (ad.gpu_vendor ≡ "amd"))))
      × (ad.gpu_vendor ≢ "nvidia" → ad.cuda_version ≡ "")
      × (ad.gpu_vendor ≢ "amd" → ad.rocm_version ≡ "")
unfolding class_ad
class_ad-consistent f amounts cpus p =
    let d = detect_gpus-Detected p in
    let vendor = (detect_gpus p).1 in
    (
      d.fits.models,
      d.fits.memory,
      d.vendor,
      λ other. ground (arith, eq_iff vendor "nvidia"),
      λ other. ground (arith, eq_iff vendor "amd"),
    )
