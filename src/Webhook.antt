-- ===== src/Webhook.antt =====
-- pkg/webhook: the admission webhook that stores the scheduling constraints of a pod in an annotation.
pub mod Affinity
pub mod Selector
pub mod Tolerations
pub mod Inject
pub mod Mutate
pub mod Serve
