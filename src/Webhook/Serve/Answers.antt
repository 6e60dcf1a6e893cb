-- ===== src/Webhook/Serve/Answers.antt =====
-- pkg/webhook/hook.go: what `Serve` answers, and when it panics.
use tensile_kube.Prelude.{
  ℕ, String, ◌≡◌, ◌↔◌, ◌⊎◌, inl, inr, refl, sym, ap, subst, Option, none, some, List, ◌∷◌, ◌==◌,
  arith, false, Bool-cases,
}
use tensile_kube.Prelude.Dict.{Dict}
use tensile_kube.Prelude.Run.{Run, done, panic, Result, ok, err}
use tensile_kube.Util.Cache.{GoCache}
use tensile_kube.Webhook.Mutate.{Response, Server, mutate}
use tensile_kube.Webhook.Serve.{
  AdmissionRequest, AdmissionReview, ReviewCodec, HttpReply, body_written, get_request_review,
  write_review, serve_review, serve,
}

module _ (codec : ReviewCodec) {C : Type 0} (g : GoCache C) (server : Server) where
  -- The request of a review whose `mutate` ends, and the answer that it makes.
  pub record Answered (review : AdmissionReview) (now : ℕ) (cache after : Dict C) (text : String)
      : Type 0 where
    pub request : AdmissionRequest
    pub response : Response
    pub asked : review.request ≡ some request
    pub decided : mutate g server request.content now cache ≡ done (response, after)
    pub encoded :
        codec.encode
          (record review { response = some (record { uid = request.uid; content = response }) })
        ≡ ok text

  -- There is no request, or `mutate` panics on it.
  abbrev pub Panics : Option AdmissionRequest → ℕ → Dict C → Type 0
  Panics request now cache =
      (request ≡ none)
      ⊎ ((r : AdmissionRequest) × (request ≡ some r)
          × (mutate g server r.content now cache ≡ panic))

  abbrev text_of : String → Option (Result String String) → String
  text_of default (some (ok text)) = text
  text_of default body = default

  write_review-text :
      (broken : Option String) (review : AdmissionReview) (text : String) (rest : List HttpReply)
      → write_review codec broken review ≡ body_written text ∷ rest
      → codec.encode review ≡ ok text
  unfolding write_review
  write_review-text broken review text rest h = ground arith

  serve_review-Answered :
      (broken : Option String) (now : ℕ) (review : AdmissionReview) (cache after : Dict C)
      (text : String) (rest : List HttpReply)
      → serve_review codec g server broken now review cache ≡ done (body_written text ∷ rest, after)
      → Answered review now cache after text
  unfolding serve_review
  serve_review-Answered broken now review cache after text rest h = asks review.request refl
    where
      decides :
          (request : AdmissionRequest)
          → review.request ≡ some request
          → (m : Run (Response × Dict C)) → mutate g server request.content now cache ≡ m
          → Answered review now cache after text
      decides request e panic f = ground arith
      decides request e (done (response, left)) f = record {
        request = request;
        response = response;
        asked = e;
        decided = ground arith;
        encoded = write_review-text broken _ text rest (ground arith);
      }

      asks :
          (r : Option AdmissionRequest) → review.request ≡ r → Answered review now cache after text
      asks none e = ground arith
      asks (some request) e = decides request e (mutate g server request.content now cache) refl

  serve_review-panic :
      (broken : Option String) (now : ℕ) (review : AdmissionReview) (cache : Dict C)
      → (serve_review codec g server broken now review cache ≡ panic)
        ↔ Panics review.request now cache
  unfolding serve_review
  serve_review-panic broken now review cache = asks review.request refl
    where
      decides :
          (request : AdmissionRequest)
          → review.request ≡ some request
          → (m : Run (Response × Dict C)) → mutate g server request.content now cache ≡ m
          → (serve_review codec g server broken now review cache ≡ panic)
            ↔ Panics review.request now cache
      decides request e panic f =
          (λ h. rw (e) (inr (request, refl, f)), λ p. rw (e, f, serve_review) refl)
      decides request e (done (response, left)) f = (λ h. ground arith, λ p. ground arith)

      asks :
          (r : Option AdmissionRequest)
          → review.request ≡ r
          → (serve_review codec g server broken now review cache ≡ panic)
            ↔ Panics review.request now cache
      asks none e = (λ h. inl e, λ p. rw (e, serve_review) refl)
      asks (some request) e = decides request e (mutate g server request.content now cache) refl

  -- Whatever body `Serve` writes is the encoded answer to the request that it got: the response of
  -- `mutate`, under the UID of the request, and the freeze cache is left as `mutate` left it.
  pub serve-Answered :
      (body : Option (Result String String)) (broken : Option String) (now : ℕ)
      (cache after : Dict C) (text : String) (rest : List HttpReply)
      → serve codec g server body broken now cache ≡ done (body_written text ∷ rest, after)
      → (review : AdmissionReview) × (get_request_review codec body ≡ ok review)
        × Answered review now cache after text
  unfolding serve
  serve-Answered body broken now cache after text rest h = go (get_request_review codec body) refl
    where
      go :
          (r : Result String AdmissionReview)
          → get_request_review codec body ≡ r
          → (review : AdmissionReview) × (get_request_review codec body ≡ ok review)
            × Answered review now cache after text
      go (err message) e = ground arith
      go (ok review) e =
          (review, e, serve_review-Answered broken now review cache after text rest (ground arith))

  -- `Serve` panics exactly where there is a body that is not empty and, as it decodes, without error or
  -- with one, either holds no request, or holds one on which `mutate` panics.
  pub serve-panic :
      (body : Option (Result String String)) (broken : Option String) (now : ℕ) (cache : Dict C)
      → (serve codec g server body broken now cache ≡ panic) ↔ (
          (text : String) × (body ≡ some (ok text))
          × ((text == "") ≡ false)
          × Panics (codec.decode text).0.request now cache)
  unfolding serve get_request_review
  serve-panic none broken now cache = (λ h. ground arith, λ p. ground arith)
  serve-panic (some (err message)) broken now cache = (λ h. ground arith, λ p. ground arith)
  serve-panic (some (ok text)) broken now cache = elim (Bool-cases (text == "")) [
    | inl empty ↦ (λ h. ground arith, λ p. ground arith)
    | inr full ↦
        let review = (codec.decode text).0 in
        let (forth, back) = serve_review-panic broken now review cache in
        (
          λ h. (text, refl, full, forth (ground arith)),
          λ (other, same, differs, p).
              rw (full, serve, get_request_review)
                (back (
                  subst (λ (t : String). Panics (codec.decode t).0.request now cache)
                    (sym (ap (text_of text) same)) p)),
        )
  ]
