-- ===== src/Requester/Taken.antt =====
-- Whose context a request gets (faceauth-daemon/src/consent/requester.rs, `take_polkit_context`).
use mathlib.Core.Path.{subst}
use omarchy_faceauth.Prelude.{
  sym, ◌-◌, ◌<◌, ◌≡◌, ◌⊎◌, inl, inr, true, Option, none, some, List, [], ◌∷◌, Instant, ltb, retain,
  arith, Option-cases, Bool-cases,
}
use omarchy_faceauth.Requester.Proc.{is_agent, context_life, take_from, take_round}
use omarchy_faceauth.Server.ProcView.{AgentPeer}
use omarchy_faceauth.Server.Request.{PolkitContext}
use omarchy_faceauth.Server.Answers.{Contexts}

abbrev pub IsOf : Instant → AgentPeer → PolkitContext → Type 0
IsOf now a c = (c.agent ≡ some a) × (now - c.at < context_life)

is_agent-same : (a : AgentPeer) (o : Option AgentPeer) → is_agent a o ≡ true → o ≡ some a
is_agent-same a none h = cc
is_agent-same a (some b) h = ground arith

abbrev fresh : Instant → List PolkitContext → List PolkitContext
fresh now cs = retain (λ (c : PolkitContext). ltb (now - c.at) context_life) cs

took_head :
    (now : Instant) (a : AgentPeer) (c : PolkitContext)
    → ltb (now - c.at) context_life ≡ true
    → is_agent a c.agent ≡ true
    → IsOf now a c
took_head now a c young same = (is_agent-same a c.agent same, ground arith)

take_from_step :
    (now : Instant) (a : AgentPeer) (c : PolkitContext) (cs : List PolkitContext)
    (r : PolkitContext × List PolkitContext)
    → take_from a (fresh now (c ∷ cs)) ≡ some r
    → ((ltb (now - c.at) context_life ≡ true) × (is_agent a c.agent ≡ true) × (r.0 ≡ c))
      ⊎ ((r' : PolkitContext × List PolkitContext) × (take_from a (fresh now cs) ≡ some r')
          × (r.0 ≡ r'.0))
unfolding take_from
take_from_step now a c cs r h = elim (Option-cases (take_from a (fresh now cs))) [
  | inl e ↦ inl (ground arith)
  | inr (r', e) ↦ elim (Bool-cases (ltb (now - c.at) context_life)) [
    | inl young ↦ elim (Bool-cases (is_agent a c.agent)) [
      | inl same ↦ inl (young, same, ground arith)
      | inr other ↦ inr (r', e, ground arith)
    ]
    | inr stale ↦ inr (r', e, ground arith)
  ]
]

take_from-IsOf :
    (now : Instant) (a : AgentPeer) (cs : List PolkitContext)
    (r : PolkitContext × List PolkitContext)
    → take_from a (fresh now cs) ≡ some r
    → IsOf now a r.0
unfolding take_from
take_from-IsOf now a [] r h = cc
take_from-IsOf now a (c ∷ cs) r h = elim (take_from_step now a c cs r h) [
  | inl (young, same, e) ↦ subst (λ x. IsOf now a x) (sym e) (took_head now a c young same)
  | inr (r', e, same) ↦ subst (λ x. IsOf now a x) (sym same) (take_from-IsOf now a cs r' e)
]

-- A context that a request takes was sent by the very agent that connected its helper, and less
-- than two minutes ago.
pub take_round-IsOf :
    (now : Instant) (a : AgentPeer) (m : Contexts) (c : PolkitContext)
    → (take_round now a m).1 ≡ some c
    → IsOf now a c
unfolding take_round
take_round-IsOf now a [] c h = cc
take_round-IsOf now a ((uid, cs) ∷ m) c h = elim (Option-cases (take_from a (fresh now cs))) [
  | inl e ↦ take_round-IsOf now a m c (ground arith)
  | inr (r, e) ↦
      let same : r.0 ≡ c = ground arith in
      subst (λ x. IsOf now a x) same (take_from-IsOf now a cs r e)
]
