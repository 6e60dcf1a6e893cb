-- ===== src/Webhook/Serve.antt =====
-- `Serve` and `getRequestReview` of pkg/webhook/hook.go: the HTTP envelope around `mutate`.
pub mod Answers
use Prim.Native.String.{◌++◌ as ◌<>◌}
use tensile_kube.Prelude.{ℕ, String, Option, none, some, List, [], ◌∷◌, ◌==◌, if◌then◌else◌}
use tensile_kube.Prelude.Dict.{Dict}
use tensile_kube.Prelude.Run.{Run, done, panic, ◌>>=◌, Result, ok, err}
use tensile_kube.Util.Cache.{GoCache}
use tensile_kube.Webhook.Mutate.{Request, Response, Server, mutate}

pub record AdmissionRequest : Type 0 where
  pub uid : String
  pub content : Request

pub record AdmissionResponse : Type 0 where
  pub uid : String
  pub content : Response

pub record AdmissionReview : Type 0 where
  pub request : Option AdmissionRequest
  pub response : Option AdmissionResponse

-- The codecs: the decoder fills a review and may find an error on top of that.
pub record ReviewCodec : Type 0 where
  pub decode : String → AdmissionReview × Option String
  pub encode : AdmissionReview → Result String String

-- What goes to the HTTP client: an error with its status, or the body of an answer.
pub data HttpReply : Type 0 where
  http_error : ℕ → String → HttpReply
  body_written : String → HttpReply

module _ (codec : ReviewCodec) where
  -- The body is nil, cannot be read, or is a text. The condition after `Decode` tests the error of the
  -- reading, which is nil there, so that the decoder's own error counts for nothing.
  unfoldable pub get_request_review : Option (Result String String) → Result String AdmissionReview
  get_request_review none = err "empty body"
  get_request_review (some (err message)) = err message
  get_request_review (some (ok body)) =
      if body == "" then err "empty body" else ok (codec.decode body).0

  -- The end of `Serve`; `broken` is the error of the write.
  unfoldable pub write_review : Option String → AdmissionReview → List HttpReply
  write_review broken review = elim (codec.encode review) [
    | err message ↦ http_error 500 ("could not encode response: " <> message) ∷ []
    | ok text ↦ elim broken [
      | none ↦ body_written text ∷ []
      | some message ↦
          body_written text ∷ http_error 500 ("could not write response: " <> message) ∷ []
    ]
  ]

  module _ {C : Type 0} (g : GoCache C) (server : Server) where
    -- `mutate` reads the request before all else.
    unfoldable pub serve_review :
        Option String → ℕ → AdmissionReview → Dict C → Run (List HttpReply × Dict C)
    unfolding write_review mutate
    serve_review broken now review cache = elim review.request [
      | none ↦ panic
      | some request ↦ mutate g server request.content now cache >>= λ (response, after). done (
        write_review broken
            (record review { response = some (record { uid = request.uid; content = response }) }),
        after,
      )
    ]

    unfoldable pub serve :
        Option (Result String String) → Option String → ℕ → Dict C → Run (List HttpReply × Dict C)
    unfolding get_request_review serve_review
    serve body broken now cache = elim (get_request_review body) [
      | err message ↦ done (http_error 400 message ∷ [], cache)
      | ok review ↦ serve_review broken now review cache
    ]
