-- ===== src/Tests/Starting.antt =====
-- The flags of the commands.
use tensile_kube.Prelude.{◌≡◌, ◌*◌, refl, true, some, [], ◌∷◌, contains, if◌then◌else◌}
use tensile_kube.Prelude.Dict.{index, index_nil}
use tensile_kube.Prelude.Run.{ok}
use tensile_kube.Prelude.Strings.{join, split}
use tensile_kube.Util.Conversions.{trim_pod}
use tensile_kube.Util.Conversions.Trips.{marked_labels}
use tensile_kube.Commands.{pv_client_worker, run_controller}
use tensile_kube.Commands.Enabled.{count_of, asked, all_synced, count_of-run_controller}
use tensile_kube.Provider.Setup.{VirtualK8s, InitConfig, new_virtual_k8s}
use tensile_kube.Provider.Setup.Ignored.{new_virtual_k8s-trim_pod}
use tensile_kube.Tests.{web_pod, codec, no_selection}

-- The default of the flag.
count_of-run_controller_example :
    count_of pv_client_worker
      (run_controller all_synced 50 (join "," ("PVControllers" ∷ "ServiceControllers" ∷ [])))
    ≡ 50 * asked pv_client_worker ("PVControllers" ∷ "ServiceControllers" ∷ [])
count_of-run_controller_example =
    count_of-run_controller pv_client_worker 50 "PVControllers" ("ServiceControllers" ∷ [])
      (refl, (refl, tt))

abbrev init : InitConfig
init = record { node_name = "vk"; daemon_port = 10250 }

abbrev virtual : VirtualK8s
virtual = record {
  node_name = "vk";
  version = "v1.18.0";
  daemon_port = 10250;
  ignore_labels = "tier" ∷ "zone" ∷ [];
  enable_service_account = true;
}

new_virtual_k8s-trim_pod_example :
    index_nil "tier"
      (trim_pod (codec [] no_selection) web_pod (some ("tier" ∷ "zone" ∷ []))).meta.labels
    ≡ (if contains "tier" ("tier" ∷ "zone" ∷ []) then "" else index "tier" (marked_labels web_pod))
unfolding new_virtual_k8s split
new_virtual_k8s-trim_pod_example =
    new_virtual_k8s-trim_pod init "config" "tier" ("zone" ∷ []) true (ok tt) (ok tt) (ok tt)
      (ok "v1.18.0") virtual (refl, (refl, tt)) refl (codec [] no_selection) web_pod "tier"
