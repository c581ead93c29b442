-- ===== src/Machine/Emit/Invariant.antt =====
-- What a property of the canister's state has to be kept by, so that a call keeps it.
use sns_kongswap_adaptor.Base.{
  some, refl, sym, Bool-cases, inl, inr, ◌⊎◌, ◌≡◌, true, false, ◌∷◌, ◌++◌, [], length,
}
use mathlib.Core.Path.{subst}
use sns_kongswap_adaptor.Base.Text.{Text}
use sns_kongswap_adaptor.Base.Result.{Result, ok, err}
use sns_kongswap_adaptor.Sns.{
  Principal, Error, TransactionWitness, pending, TreasuryManagerOperation,
}
use sns_kongswap_adaptor.AuditTrail.{
  StableTransaction, push_audit_trail_transaction, set_audit_trail_transaction_result,
}
use sns_kongswap_adaptor.Agent.{Request, commit_state}
use sns_kongswap_adaptor.Machine.State.{Canister, Env, Machine}
use sns_kongswap_adaptor.Machine.Run.{lift, agent_call, ◌>>=◌, ◌>>◌}
use sns_kongswap_adaptor.Machine.Emit.{outcome, oversized, record_result, emit_transaction}
use sns_kongswap_adaptor.Machine.Keeps.{Keeps, Holds, Ends}

abbrev pub appended : StableTransaction → Canister → Canister
appended t c = record c { audit_trail = c.audit_trail ++ t ∷ [] }

-- The canister when a call returns that began by appending `t`, with its result recorded.
abbrev pub recorded :
    {W : Type 0}
    → Env W
    → W
    → StableTransaction
    → Result TransactionWitness Error
    → Canister
    → Canister
recorded env w t result c =
    let resumed = env.others w (appended t c) in
    record resumed {
      audit_trail =
          set_audit_trail_transaction_result (length c.audit_trail) (record t { result = result })
            resumed.audit_trail;
    }

pub record KeptByCalls {W : Type 0} (env : Env W) (P : Canister → Type 0) : Type 0 where
  pub others : (w : W) (c : Canister) → P c → P (env.others w c)
  pub appending : (t : StableTransaction) (c : Canister) → P c → P (appended t c)
  pub recording :
      (w : W) (t : StableTransaction) (result : Result TransactionWitness Error) (c : Canister)
      → P c
      → P (recorded env w t result c)

module _ {W : Type 0} {env : Env W} {P : Canister → Type 0} (T : Type 0) (admitted : T)
    (kept : KeptByCalls env P) where
  -- From the recorded result on.
  ending :
      {A : Type 0} (x : Result A Error) (m : Machine W)
      → P m.canister
      → let r = (agent_call env env.id commit_state >> lift x) m in Holds P r.1 × Ends T r.0
  unfolding ◌>>=◌ agent_call lift
  ending (ok a) m h = ((kept.others _ _ h, kept.others _ _ h), tt)
  ending (err e) m h = ((kept.others _ _ h, kept.others _ _ h), tt)

  -- From the answer to an announced call on: its result is recorded, or is too long.
  answered :
      {A : Type 0} (w : W) (t : StableTransaction) (result : Result TransactionWitness Error)
      (x : Result A Error) (c : Canister) (m : Machine W)
      → P c
      → m.canister ≡ env.others w (appended t c)
      → Holds P m
      → let s = record t { result = result } in
        let r =
          (record_result env (some (length c.audit_trail)) s
              >> (agent_call env env.id commit_state >> lift x))
            m in
        Holds P r.1 × Ends T r.0
  unfolding ◌>>=◌ emit_transaction
  answered w t result x c m h e k =
      let s = record t { result = result } in
      let written : Machine W = record m {
        canister = record m.canister {
          audit_trail =
              set_audit_trail_transaction_result (length c.audit_trail) s m.canister.audit_trail;
        };
      } in
      let long = oversized env (length c.audit_trail) s m.canister.audit_trail in
      elim (Bool-cases long) [
        | inl i ↦ rw i ((k.1, k.1), admitted)
        | inr i ↦ rw i (
            ending x written (
              subst
                (λ d. P (record d {
                  audit_trail =
                      set_audit_trail_transaction_result (length c.audit_trail) s d.audit_trail;
                }))
                (sym e) (kept.recording w t result c h)))
      ]

  -- Whatever the called canister answers, and whether or not the trail could grow; it traps only where
  -- an entry is too long.
  pub emit_transaction-Keeps :
      (op : TreasuryManagerOperation) (canister_id : Principal) (r : Request) (purpose : Text)
      → Keeps T P (emit_transaction env op canister_id r purpose)
  unfolding emit_transaction push_audit_trail_transaction
  emit_transaction-Keeps op canister_id r purpose = record {
    at = λ m h. (by_growth m h (Bool-cases (env.grows m.world))).0;
    ends = λ m h. (by_growth m h (Bool-cases (env.grows m.world))).1;
  }
    where
      by_growth :
          (m : Machine W)
          → Holds P m
          → (env.grows m.world ≡ true) ⊎ (env.grows m.world ≡ false)
          → let result = emit_transaction env op canister_id r purpose m in
            Holds P result.1 × Ends T result.0
      by_growth m h g =
          let (answer, world) = env.call canister_id r m.world in
          let (result, output) = outcome env canister_id r answer in
          let t : StableTransaction = record {
            timestamp_ns = env.time_ns m.world;
            canister_id = canister_id;
            result = ok pending;
            human_readable = purpose;
            operation = op;
          } in
          let resumed = env.others world m.canister in
          let resumed_1 = env.others world (appended t m.canister) in
          let after : Machine W = record m {
            canister = resumed;
            committed = resumed;
            world = world;
          } in
          let after_1 : Machine W = record m {
            canister = resumed_1;
            committed = resumed_1;
            world = world;
          } in
          let kept_1 = kept.others world _ (kept.appending t m.canister h.0) in
          elim (Bool-cases (env.fits t)) [
            | inr i ↦ rw i ((h.1, h.1), admitted)
            | inl i ↦ elim g [
              | inl e ↦
                  rw (i, e, push_audit_trail_transaction)
                    (answered world t result output m.canister after_1 h.0 refl (kept_1, kept_1))
              | inr e ↦
                  rw (i, e, push_audit_trail_transaction)
                    (ending output after (kept.others world m.canister h.0))
            ]
          ]
