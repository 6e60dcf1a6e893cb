-- ===== src/Tests/Objects.antt =====
-- The controllers, at concrete objects.
use tensile_kube.Prelude.{String, ◌≡◌, refl, none, some, [], ◌∷◌, ◌==◌}
use tensile_kube.Prelude.Dict.{lookup, index, index_nil}
use tensile_kube.Prelude.Run.{Result, ok}
use tensile_kube.Api.{ConfigMap, Secret, Service, ApiError}
use tensile_kube.Controllers.Global.{is_object_global, filter_service}
use tensile_kube.Controllers.Common.{config_maps, secrets, update_config_map}
use tensile_kube.Controllers.Common.Runs.{runs, sent, runs-sent}
use tensile_kube.Controllers.Services.{
  Shape, services, Answered, QueueOp, forget, add_rate_limited, sync_lower, create_copy,
  update_copy, patch_object,
}
use tensile_kube.Controllers.Services.Delivery.{sync_handler-unmarked, sync_lower-retry}
use tensile_kube.Tests.{web_meta}

abbrev settings : String → ConfigMap
settings v = record {
  meta = record web_meta { name = "settings" };
  content = some (("mode", v) ∷ []);
  binary_data = none;
}

abbrev token : String → Secret
token v = record {
  meta = record web_meta { name = "token" };
  content = some (("key", v) ∷ []);
  string_data = none;
  type = "Opaque";
}

abbrev marked_token : Secret
marked_token = record (token "old") {
  meta = record web_meta { annotations = some (("global", "true") ∷ []) };
}

-- Two versions of a config map, and two of a secret whose lower copy carries the global mark.
runs-sent_example :
    (runs config_maps
        (λ m. ok tt)
        (λ m. ok m)
        "shop"
        "settings"
        (settings "1" ∷ (settings "2" ∷ []))
        (some (settings "old"))
      ≡ (
        sent config_maps (settings "old") (settings "1")
            ∷ (sent config_maps (settings "old") (settings "2") ∷ []),
        some (settings "2"),
      ))
    × (runs secrets
          (λ m. ok tt)
          (λ m. ok m)
          "shop"
          "token"
          (token "1" ∷ (token "2" ∷ []))
          (some marked_token)
        ≡ (
          [],
          some
              (record (token "2") { meta = record marked_token.meta { labels = web_meta.labels } }),
        ))
unfolding is_object_global index_nil index lookup config_maps secrets update_config_map
runs-sent_example =
    runs-sent (λ m. ok tt) (λ m. ok m) (λ m. ok tt) (λ m. ok m) "shop" "settings" "shop" "token"
      (settings "1" ∷ []) (settings "old") (settings "2") (token "1" ∷ []) marked_token (token "2")
      (refl, (refl, tt)) (refl, (refl, tt))

abbrev front : Service
front = record {
  meta = web_meta;
  selector = some (("app", "web") ∷ []);
  cluster_ip = "10.0.0.1";
  rest = "";
}

abbrev sent_front : Service
sent_front = (filter_service (λ m. some "app=web") front).0

abbrev lower_front : Service
lower_front = record sent_front { cluster_ip = "10.1.1.1"; rest = "old" }

abbrev shape : Shape Service
shape = services (λ a b. a.rest == b.rest) (λ m. some "app=web") (λ old new. ok "patch")

abbrev answers : Result ApiError Service → Answered Service
answers client = record {
  namespace = ok tt;
  namespace_created = ok tt;
  lister = ok front;
  master = ok front;
  client = client;
  delete = ok tt;
  create = ok front;
  patch = ok front;
}
