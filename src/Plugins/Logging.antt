-- ===== src/Plugins/Logging.antt =====
-- internal/plugins/plugins.go: `LogPlugin` and the events of the file service.
use lan_a2a.Prelude.{
  ℕ, ◌≡◌, refl, sym, subst, inl, inr, false, none, some, List, [], ◌∷◌, arith, Option-cases, nat_eq,
  string_eq, list_eq, In,
}
use lan_a2a.Plugins.{
  on_log, value, Event, Plugin, log_plugin, on_event, emit_to, Manager, transfer_start, emit,
}

-- A plugin that changes nothing of an event.
abbrev pub Reads : Event → Plugin → Type 0
Reads e p = (e' : Event) (calls : List (ℕ × Event)) → on_event p e ≡ some (e', calls) → e' ≡ e

emit_to-panic :
    (p : Plugin) (plugins : List Plugin) (e : Event)
    → on_event p e ≡ none
    → emit_to (p ∷ plugins) e ≡ none
unfolding emit_to
emit_to-panic p plugins e h = rw (emit_to, h) refl

emit_to-later :
    (p : Plugin) (plugins : List Plugin) (e e' : Event) (calls : List (ℕ × Event))
    → on_event p e ≡ some (e', calls)
    → emit_to plugins e' ≡ none
    → emit_to (p ∷ plugins) e ≡ none
unfolding emit_to
emit_to-later p plugins e e' calls h k = rw (emit_to, h, k) refl

log_plugin-panics :
    (e : Event) (k : ℕ)
    → e.type ≡ transfer_start
    → e.transfer ≡ value false k
    → on_event log_plugin e ≡ none
unfolding on_event on_log
log_plugin-panics e k t v = ground (arith, t, v, string_eq.beq_iff e.type transfer_start)

emit_to-log_plugin :
    (plugins : List Plugin) (e : Event) (k : ℕ)
    → In log_plugin plugins
    → ((p : Plugin) → In p plugins → Reads e p)
    → e.type ≡ transfer_start
    → e.transfer ≡ value false k
    → emit_to plugins e ≡ none
emit_to-log_plugin [] e k h r t v = absurd h
emit_to-log_plugin (p ∷ plugins) e k (inl q) r t v =
    emit_to-panic p plugins e (subst (λ x. on_event x e ≡ none) q (log_plugin-panics e k t v))
emit_to-log_plugin (p ∷ plugins) e k (inr h) r t v = elim (Option-cases (on_event p e)) [
  | inl q ↦ emit_to-panic p plugins e q
  | inr ((e', calls), q) ↦ emit_to-later p plugins e e' calls q (
      subst (λ x. emit_to plugins x ≡ none) (sym (r p (inl refl) e' calls q))
        (emit_to-log_plugin plugins e k h (λ x i. r x (inr i)) t v))
]

-- Once a `LogPlugin` is registered, `Emit` panics on the event that starts a transfer whenever the
-- transfer's type has no method GetID, as `fileservice.Transfer` has none: at that plugin, or before it.
-- The plugins leave the event as it is.
pub emit-log_plugin :
    (m : Manager) (e : Event) (k : ℕ)
    → In log_plugin m.plugins
    → ((p : Plugin) → In p m.plugins → Reads e p)
    → e.type ≡ transfer_start
    → e.transfer ≡ value false k
    → emit e m ≡ none
unfolding emit
emit-log_plugin m e k h r t v = rw (emit, emit_to-log_plugin m.plugins e k h r t v) refl
