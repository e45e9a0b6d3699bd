-- ===== src/Reconcile.antt =====
-- packages/runtime/src/reconcile: where a component is placed and what the reconciler does next.
pub mod Placement
pub mod Identities
pub mod Plan
