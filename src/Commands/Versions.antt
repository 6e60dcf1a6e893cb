-- ===== src/Commands/Versions.antt =====
-- cmd/descheduler/app/version.go: the versions on which `splitVersion` panics.
use tensile_kube.Prelude.{String, ◌≡◌, ◌↔◌, true, false, arith, ◌==◌, Bool-cases, inl, inr}
use tensile_kube.Prelude.Run.{panic}
use tensile_kube.Prelude.Strings.{lacks, split_lacking, split_several}
use tensile_kube.Commands.{split_version}

-- `splitVersion` panics exactly on a version that is not empty and has no dot.
split_version-panic :
    (version : String)
    → (split_version version ≡ panic) ↔ (((version == "") ≡ false) × (lacks "." version ≡ true))
unfolding split_version
split_version-panic version = elim (Bool-cases (lacks "." version)) [
  | inl plain ↦ (
    λ h. ground (arith, split_lacking "." version plain),
    λ h. ground (arith, split_lacking "." version plain),
  )
  | inr dotted ↦
      let (x, y, xs, e) = split_several "." version dotted in (λ h. ground arith, λ h. ground arith)
]
