-- ===== src/Tests/Serving.antt =====
-- The HTTP envelope of the webhook, at a review that reports a node for a pod.
use tensile_kube.Prelude.{ℕ, String, ◌≡◌, ◌↔◌, refl, false, Option, none, some, [], ◌∷◌, ◌==◌}
use tensile_kube.Prelude.Dict.{Dict, index_nil, index, lookup}
use tensile_kube.Prelude.Run.{Result, ok, err, panic}
use tensile_kube.Api.{other}
use tensile_kube.Util.Consts.{is_virtual_pod}
use tensile_kube.Util.Cache.Memory.{memory_cache}
use tensile_kube.Webhook.Mutate.{
  Request, Server, set_unschedulable_nodes, get_owner_ref, should_skip, mutate, mutate_pod,
}
use tensile_kube.Webhook.Serve.{
  AdmissionReview, ReviewCodec, get_request_review, serve, serve_review, write_review,
}
use tensile_kube.Webhook.Serve.Answers.{Answered, Panics, serve-Answered, serve-panic}
use tensile_kube.Tests.{reported_pod, codec, no_selection}

abbrev server : Server
server = record {
  json = codec [] no_selection;
  json_patch = λ old new. ok "patch";
  pvc_lister = λ ns name. err (other "none");
  ignore_selector_keys = "zone" ∷ [];
}

abbrev update_request : Request
update_request = record { kind = "Pod"; operation = "UPDATE"; object = ok reported_pod }

abbrev review : AdmissionReview
review = record {
  request = some (record { uid = "u-7"; content = update_request });
  response = none;
}

abbrev reviews : ReviewCodec
reviews = record { decode = λ body. (review, none); encode = λ review. ok "answer" }

abbrev stored : Dict (Dict ℕ)
stored = set_unschedulable_nodes memory_cache 100 (get_owner_ref reported_pod) reported_pod []

serve-Answered_example :
    (r : AdmissionReview) × (get_request_review reviews (some (ok "body")) ≡ ok r)
    × Answered reviews memory_cache server r 100 [] stored "answer"
unfolding serve serve_review write_review get_request_review mutate should_skip mutate_pod
    is_virtual_pod index_nil index lookup
serve-Answered_example =
    serve-Answered reviews memory_cache server (some (ok "body")) none 100 [] stored "answer" []
      refl

-- A body that is no review at all.
abbrev broken : ReviewCodec
broken = record {
  decode = λ body. (record { request = none; response = none }, some "not a review");
  encode = λ review. ok "answer";
}

abbrev body : Option (Result String String)
body = some (ok "body")

serve-panic_example : (serve broken memory_cache server (some (ok "body")) none 100 [] ≡ panic) ↔ (
    (text : String) × (body ≡ some (ok text))
    × ((text == "") ≡ false)
    × Panics broken memory_cache server (broken.decode text).0.request 100 [])
serve-panic_example = serve-panic broken memory_cache server (some (ok "body")) none 100 []
