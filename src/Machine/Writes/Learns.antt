-- ===== src/Machine/Writes/Learns.antt =====
-- Actions that write nothing, and what their outcome says of the answers to their calls.
use mathlib.Core.Path.{subst}
use sns_kongswap_adaptor.Base.{
  ◌≡◌, refl, sym, ◌⊎◌, inl, inr, Bool-cases, List, [], ◌∷◌, ◌++◌, length,
}
use sns_kongswap_adaptor.Base.Text.{Text}
use sns_kongswap_adaptor.Base.Result.{Result, ok, err}
use sns_kongswap_adaptor.Sns.{Principal, Error, pending, TreasuryManagerOperation}
use sns_kongswap_adaptor.Validation.Asset.{ValidatedAsset}
use sns_kongswap_adaptor.AuditTrail.{push_audit_trail_transaction}
use sns_kongswap_adaptor.Balances.{ValidatedBalances}
use sns_kongswap_adaptor.Balances.Bounds.{Update}
use sns_kongswap_adaptor.Agent.{Request, Reply}
use sns_kongswap_adaptor.Machine.State.{Env, Machine, ConfigState}
use sns_kongswap_adaptor.Machine.Run.{Flow, done, fail, trapped, Action, lift, ◌>>=◌, attempt}
use sns_kongswap_adaptor.Machine.Emit.{emit_transaction, outcome, oversized}
use sns_kongswap_adaptor.Machine.Emit.Quiet.{IsQuiet}
use sns_kongswap_adaptor.Machine.Emit.Record.{announced}
use sns_kongswap_adaptor.Machine.Writes.{
  Writes, Post, Nothing, Attempted, bind-Writes, attempt-Writes,
}
use sns_kongswap_adaptor.Machine.Writes.Nothing.{emit-Nothing}

-- In some world, the canister `p` answers `r` so that the call comes to `x`.
abbrev pub Said : {W : Type 0} → Env W → Principal → (r : Request) → Result (Reply r) Error → Type 0
Said {W} env p r x = (w : W) × ((outcome env p r (env.call p r w).0).1 ≡ x)

-- Nothing is written, and the outcome is as `K` says.
abbrev pub Learns : {A E : Type 0} → (Result A E → Type 0) → Result A E → List Update → Type 0
Learns K r us = (us ≡ []) × K r

module _ {T : Type 0} {pair : ValidatedAsset × ValidatedAsset} {W A B E : Type 0} where
  pub learn-then :
      {K : Result A E → Type 0} {S : Result B E → List Update → Type 0} {x : Action W A E}
      (k : A → Action W B E)
      → Writes T pair (Learns K) x
      → ((e : E) → K (err e) → S (err e) [])
      → ((a : A) → K (ok a) → Writes T pair S (k a))
      → Writes T pair S (x >>= k)
  learn-then {S} k h failed next =
      bind-Writes h
        (λ a us e.
          subst (λ us. Writes T pair (λ r vs. S r (us ++ vs)) (k a)) (sym e.0) (next a e.1))
        (λ x us e. subst (λ us. S (err x) us) (sym e.0) (failed x e.1))

  pub attempt_then :
      {K : Result A E → Type 0} {F : Type 0} {S : Result B F → List Update → Type 0}
      {x : Action W A E} (k : Result A E → Action W B F)
      → Writes T pair (Learns K) x
      → ((r : Result A E) → K r → Writes T pair S (k r))
      → Writes T pair S (attempt x >>= k)
  attempt_then {K} {S} k h next =
      bind-Writes (attempt-Writes {R = Attempted (Learns K)} h)
        (λ r us e.
          subst (λ us. Writes T pair (λ q vs. S q (us ++ vs)) (k r)) (sym e.0) (next r e.1))
        (λ x us e. elim e [ ])

module _ {W : Type 0} (env : Env W) (op : TreasuryManagerOperation) (p : Principal) (r : Request)
    (purpose : Text) where
  lifted :
      {A : Type 0} (x : Result A Error) (m m' : Machine W)
      → (lift {W = W} x m).0 ≡ (lift {W = W} x m').0
  unfolding lift
  lifted (ok a) m m' = refl
  lifted (err e) m m' = refl

  -- A call traps, or comes to its outcome.
  comes_to :
      (m : Machine W)
      → let result = emit_transaction env op p r purpose m in
        (result.0 ≡ trapped)
        ⊎ (result.0 ≡ (lift {W = W} (outcome env p r (env.call p r m.world).0).1 m).0)
  unfolding emit_transaction push_audit_trail_transaction
  comes_to m =
      let out = outcome env p r (env.call p r m.world).0 in
      let t = announced env op p purpose m (ok pending) in
      let s = announced env op p purpose m out.0 in
      let trail = m.canister.audit_trail in
      let resumed =
        env.others (env.call p r m.world).1 (record m.canister { audit_trail = trail ++ t ∷ [] }) in
      elim (Bool-cases (env.fits t)) [
        | inr i ↦ inl (rw i refl)
        | inl i ↦ elim (Bool-cases (env.grows m.world)) [
          | inr e ↦ inr (rw (i, e) (lifted out.1 _ _))
          | inl e ↦ elim (Bool-cases (oversized env (length trail) s resumed.audit_trail)) [
            | inl j ↦ inl (rw (i, e, j) refl)
            | inr j ↦ inr (rw (i, e, j) (lifted out.1 _ _))
          ]
        ]
      ]

  said :
      {A : Type 0} (x : Result A Error) (m : Machine W)
      → ((a : A) → (lift {W = W} x m).0 ≡ done a → x ≡ ok a)
        × ((e : Error) → (lift {W = W} x m).0 ≡ fail e → x ≡ err e)
  unfolding lift
  said (ok a) m = (λ b h. cc, λ e h. cc)
  said (err e) m = (λ b h. cc, λ e' h. cc)

module _ {pair : ValidatedAsset × ValidatedAsset} {W : Type 0} (env : Env W)
    (quiet : IsQuiet env) where
  pub emit-Learns :
      (op : TreasuryManagerOperation) (p : Principal) (r : Request) (purpose : Text)
      → Writes Unit pair (Learns (Said env p r)) (emit_transaction env op p r purpose)
  emit-Learns op p r purpose = record {
    at = λ m b e q.
        by_flow m b (emit_transaction env op p r purpose m).0
          (emit_transaction env op p r purpose m).1.canister.balances
          (comes_to env op p r purpose m) ((emit-Nothing env quiet op p r purpose).at m b e q);
  }
    where
      by_flow :
          (m : Machine W) (b : ValidatedBalances) (f : Flow (Reply r) Error) (after : ConfigState)
          → let x = (outcome env p r (env.call p r m.world).0).1 in
            (f ≡ trapped) ⊎ (f ≡ (lift {W = W} x m).0)
            → Post pair Unit Nothing b f after
            → Post pair Unit (Learns (Said env p r)) b f after
      by_flow m b (done a) after (inl h) k = cc
      by_flow m b (done a) after (inr h) (us, n, k, l) =
          (us, (n, (m.world, (said env op p r purpose _ m).0 a (sym h))), k, l)
      by_flow m b (fail x) after (inl h) k = cc
      by_flow m b (fail x) after (inr h) (us, n, k, l) =
          (us, (n, (m.world, (said env op p r purpose _ m).1 x (sym h))), k, l)
      by_flow m b trapped after h k = tt
