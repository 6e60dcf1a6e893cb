-- ===== src/Util/Conversions/Updates.antt =====
-- What `GetUpdatedPod` does to its two pods.
use tensile_kube.Prelude.{
  String, ◌≡◌, refl, ◌<◌, ◌≤◌, ◌↔◌, ◌⊎◌, ap, subst, true, Option, none, some, List, [], ◌∷◌, map,
  arith, contains, length, take,
}
use tensile_kube.Prelude.Dict.{Dict, index_nil, index_nil-make_if_nil, make_if_nil}
use tensile_kube.Prelude.Run.{Run, done, panic, ◌>>=◌}
use tensile_kube.Api.{Container, PodSpec, Pod}
use tensile_kube.Util.Consts.{Json, tripped_labels}
use tensile_kube.Util.Labels.{trim_labels, recover_labels}
use tensile_kube.Util.Labels.RoundTrip.{trim_loop_listed}
use tensile_kube.Util.Conversions.{
  update_images, trim_shared, updated_tolerations, get_updated_pod, written_pods,
}

-- A container without its image.
abbrev pub blank : Container → Container
blank c = record c { image = "" }

abbrev pub image_of : Container → String
image_of c = c.image

pub update_images_total :
    (cs us : List Container)
    → length cs ≤ length us
    → (out : List Container) × (update_images cs us ≡ done out)
      × (map image_of out ≡ take (length cs) (map image_of us))
      × (map blank out ≡ map blank cs)
unfolding update_images
update_images_total [] us h = ([], refl, refl, refl)
update_images_total (c ∷ cs) [] h = elim h [ ]
update_images_total (c ∷ cs) (u ∷ us) h =
    let (out, run, images, rest) = update_images_total cs us (omega arith) in
    (
      record c { image = u.image } ∷ out,
      rw run,
      ap (λ l. u.image ∷ l) images,
      ap (λ l. blank c ∷ l) rest,
    )

update_images-panic : (cs us : List Container) → length us < length cs → update_images cs us ≡ panic
unfolding update_images
update_images-panic [] us h = elim h [ ]
update_images-panic (c ∷ cs) [] h = refl
update_images-panic (c ∷ cs) (u ∷ us) h = rw (update_images-panic cs us (omega arith))

update_images_short : (cs us : List Container) → update_images cs us ≡ panic → length us < length cs
unfolding update_images
update_images_short [] us h = cc
update_images_short (c ∷ cs) [] h = omega arith
update_images_short (c ∷ cs) (u ∷ us) h = omega (arith, update_images_short cs us (ground arith))

-- The containers afterwards: the old ones with the images of the first new ones.
abbrev pub HasImages : List Container → List Container → List Container → Type 0
HasImages old new out =
    (map blank out ≡ map blank old) × (map image_of out ≡ take (length old) (map image_of new))

-- The fields that `GetUpdatedPod` may write, put back, and what it writes into the containers.
abbrev pub SameFrame : Pod → Pod → Pod → Type 0
SameFrame orig update o =
    (record o {
      meta = record o.meta { labels = orig.meta.labels; annotations = orig.meta.annotations };
      spec = record o.spec {
        containers = orig.spec.containers;
        init_containers = orig.spec.init_containers;
        tolerations = orig.spec.tolerations;
        active_deadline_seconds = orig.spec.active_deadline_seconds;
      };
    }
      ≡ orig)
    × HasImages orig.spec.containers update.spec.containers o.spec.containers
    × HasImages orig.spec.init_containers update.spec.init_containers o.spec.init_containers

Run-done : {A : Type 0} {a b : A} → ◌≡◌ {A = Run A} (done a) (done b) → a ≡ b
Run-done h = cc

update_images-HasImages :
    (old new out : List Container) → update_images old new ≡ done out → HasImages old new out
unfolding update_images
update_images-HasImages [] new out h = ground arith
update_images-HasImages (c ∷ cs) [] out h = cc
update_images-HasImages (c ∷ cs) (u ∷ us) out h =
    go (update_images cs us) refl (update_images-HasImages cs us) h
  where
    go :
        (r : Run (List Container))
        → update_images cs us ≡ r
        → ((rest : List Container) → update_images cs us ≡ done rest → HasImages cs us rest)
        → (r >>= λ rest. done (record c { image = u.image } ∷ rest)) ≡ done out
        → HasImages (c ∷ cs) (u ∷ us) out
    go (done rest) f ih e =
        let (blanks, images) = ih rest f in
        let same : (record c { image = u.image } ∷ rest) ≡ out = Run-done e in
        subst (HasImages (c ∷ cs) (u ∷ us)) same
          (ap (λ l. blank c ∷ l) blanks, ap (λ l. u.image ∷ l) images)
    go panic f ih e = cc

-- A label that is gone from both pods, and that `RecoverLabels` does not bring back.
abbrev pub LosesLabel : Json → String → Pod × Pod → Type 0
LosesLabel json key p =
    (recover_labels json p.0.meta.labels p.0.meta.annotations ≡ done p.0.meta.labels)
    × (index_nil key p.0.meta.labels ≡ "")
    × (index_nil key p.1.meta.labels ≡ "")

module _ (json : Json) (orig update : Pod) (ignore : Option (List String)) where
  -- `GetUpdatedPod` panics exactly where the new pod has fewer init containers or fewer containers
  -- than the pod in the lower cluster.
  pub get_updated_pod-panic : (get_updated_pod json orig update ignore ≡ panic) ↔ (
      (length update.spec.init_containers < length orig.spec.init_containers)
      ⊎ (length update.spec.containers < length orig.spec.containers))
  unfolding get_updated_pod
  get_updated_pod-panic = (
    λ h. ground (
      arith,
      update_images_short orig.spec.init_containers update.spec.init_containers,
      update_images_short orig.spec.containers update.spec.containers,
    ),
    λ h. ground (
      arith,
      update_images-panic orig.spec.init_containers update.spec.init_containers,
      update_images-panic orig.spec.containers update.spec.containers,
    ),
  )

module _ (json : Json) (orig update : Pod) (ignore : Option (List String)) where
  tolerations_alone :
      (a : Dict String)
      → record (updated_tolerations json orig update a) { tolerations = orig.spec.tolerations }
        ≡ orig.spec
  unfolding updated_tolerations
  tolerations_alone a = ground arith

  written_pods-frame :
      (i c : List Container)
      → HasImages orig.spec.containers update.spec.containers c
      → HasImages orig.spec.init_containers update.spec.init_containers i
      → SameFrame orig update (written_pods json orig update ignore i c).0
  unfolding written_pods
  written_pods-frame i c hc hi = (
    ap
        (λ (s : PodSpec). record orig {
          spec = record s {
            containers = orig.spec.containers;
            init_containers = orig.spec.init_containers;
            active_deadline_seconds = orig.spec.active_deadline_seconds;
          };
        })
        (tolerations_alone (make_if_nil update.meta.annotations)),
    hc,
    hi,
  )

  get_updated_pod-written :
      (p : Pod × Pod)
      → get_updated_pod json orig update ignore ≡ done p
      → (i : List Container) × (c : List Container) × (update_images orig.spec.init_containers
            update.spec.init_containers
          ≡ done i)
        × (update_images orig.spec.containers update.spec.containers ≡ done c)
        × (written_pods json orig update ignore i c ≡ p)
  unfolding get_updated_pod
  get_updated_pod-written p h =
      go (update_images orig.spec.init_containers update.spec.init_containers) refl
        (update_images orig.spec.containers update.spec.containers) refl h
    where
      go :
          (ri : Run (List Container))
          → update_images orig.spec.init_containers update.spec.init_containers ≡ ri
          → (rc : Run (List Container))
          → update_images orig.spec.containers update.spec.containers ≡ rc
          → (ri >>= λ i. rc >>= λ c. done (written_pods json orig update ignore i c)) ≡ done p
          → (i : List Container) × (c : List Container) × (update_images orig.spec.init_containers
                update.spec.init_containers
              ≡ done i)
            × (update_images orig.spec.containers update.spec.containers ≡ done c)
            × (written_pods json orig update ignore i c ≡ p)
      go (done i) f (done c) t e = (i, c, f, t, cc)
      go (done i) f panic t e = cc
      go panic f rc t e = cc

  -- `GetUpdatedPod` writes into the lower pod only the tolerations, the deadline, the labels, the annotations
  -- and, in each container and init container, the image, which it takes from the container of the
  -- new pod at the same place: the pod that comes out, with those put back, is the pod that went in.
  pub get_updated_pod-frame :
      (p : Pod × Pod) → get_updated_pod json orig update ignore ≡ done p → SameFrame orig update p.0
  get_updated_pod-frame p h =
      let (i, c, init_run, run, e) = get_updated_pod-written p h in
      subst (λ (q : Pod × Pod). SameFrame orig update q.0) e
        (written_pods-frame i c
          (update_images-HasImages orig.spec.containers update.spec.containers c run)
          (update_images-HasImages orig.spec.init_containers update.spec.init_containers i
            init_run))

module _ (json : Json) (orig update : Pod) (keys : List String) where
  trim_shared_listed :
      (key : String) (labels : Option (Dict String))
      → contains key keys ≡ true
      → index_nil key (trim_shared labels (some keys)) ≡ ""
  unfolding trim_shared trim_labels index_nil
  trim_shared_listed key none h = refl
  trim_shared_listed key (some m) h = trim_loop_listed key keys ([], m) h

  written_pods-loses :
      (key : String) (i c : List Container)
      → index_nil tripped_labels update.meta.annotations ≡ ""
      → contains key keys ≡ true
      → LosesLabel json key (written_pods json orig update (some keys) i c)
  unfolding written_pods recover_labels
  written_pods-loses key i c untripped listed = (
    rw (index_nil-make_if_nil tripped_labels update.meta.annotations, untripped),
    trim_shared_listed key update.meta.labels listed,
    trim_shared_listed key update.meta.labels listed,
  )

  -- Where the upper pod carries no `tripped-labels` annotation, `GetUpdatedPod` loses the ignored labels:
  -- `RecoverLabels` finds nothing to recover in the updated pod, none of the ignored labels is
  -- left in it, and they are gone from the caller's pod too.
  get_updated_pod-loses :
      (key : String) (p : Pod × Pod)
      → index_nil tripped_labels update.meta.annotations ≡ ""
      → contains key keys ≡ true
      → get_updated_pod json orig update (some keys) ≡ done p
      → LosesLabel json key p
  get_updated_pod-loses key p untripped listed h =
      let (i, c, init_run, run, e) = get_updated_pod-written json orig update (some keys) p h in
      subst (LosesLabel json key) e (written_pods-loses key i c untripped listed)
