-- ===== src/Machine/Emit/Record.antt =====
-- What a call leaves in the audit trail, whatever the called canister answers and whatever other
-- messages run meanwhile.
use sns_kongswap_adaptor.Base.{
  ℕ, ◌≡◌, ◌≢◌, refl, true, false, [], ◌∷◌, ◌++◌, inl, inr, Bool-cases, some, List, length,
  get_elem?, get_elem?-lt, get_elem?-append_new, get_elem?-set_self, lt→ltb,
}
use sns_kongswap_adaptor.Base.Text.{Text, str, text_eq}
use sns_kongswap_adaptor.Base.Result.{Result, ok, err, map_err}
use sns_kongswap_adaptor.Base.Result.{◌>>=◌ as ◌then_try◌}
use sns_kongswap_adaptor.Sns.{
  Principal, Error, TransactionWitness, pending, TreasuryManagerOperation,
}
use sns_kongswap_adaptor.AuditTrail.{
  StableTransaction, Trail, push_audit_trail_transaction, set_audit_trail_transaction_result,
}
use sns_kongswap_adaptor.Agent.{Request, Reply, Response, commit_state, TransferIdReply}
use sns_kongswap_adaptor.Agent.{
  balance_of, transfer, approve, transfer_from, metadata, add_liquidity_amounts, add_liquidity,
  add_token, update_token, add_pool, remove_liquidity_amounts, remove_liquidity, user_balances,
  claims, claim,
}
use sns_kongswap_adaptor.Agent.Witness.{Printer, settled}
use sns_kongswap_adaptor.Agent.Requests.{transaction_witness}
use sns_kongswap_adaptor.Machine.State.{Canister, Env, Machine}
use sns_kongswap_adaptor.Machine.Run.{Flow, done, fail, trapped, lift, agent_call, ◌>>=◌, ◌>>◌}
use sns_kongswap_adaptor.Machine.Emit.{outcome, witnessed, emit_transaction, record_result}

-- The recorded result of a call is that of the action, and not the placeholder.
abbrev pub Records : {A : Type 0} → Result TransactionWitness Error → Flow A Error → Type 0
Records result (done a) =
    (witness : TransactionWitness) × (result ≡ ok witness) × (witness ≢ pending)
Records result (fail e) = result ≡ err e
Records result trapped = ⊥

-- A witness, where there is one, is not the placeholder.
abbrev IsWitnessed : {A E : Type 0} → Result (TransactionWitness × A) E → Type 0
IsWitnessed (ok x) = x.0 ≢ pending
IsWitnessed (err e) = Unit

bind-IsWitnessed :
    {A B E : Type 0} (x : Result A E) (f : A → Result (TransactionWitness × B) E)
    → ((a : A) → IsWitnessed (f a))
    → IsWitnessed (◌then_try◌ x f)
bind-IsWitnessed (ok a) f h = h a
bind-IsWitnessed (err e) f h = tt

settled-IsWitnessed :
    (p : Printer) (r : Request) (failure status : Text) (ids : List TransferIdReply)
    (reply : Reply r)
    → IsWitnessed (settled p r failure status ids reply)
settled-IsWitnessed p r failure status ids reply =
    elim (Bool-cases (text_eq status (str "Success"))) [ inl e ↦ rw e (λ q. cc) | inr e ↦ rw e tt ]

witness-IsWitnessed :
    (p : Printer) (r : Request) (c : Principal) (response : Response r)
    → IsWitnessed (transaction_witness p r c response)
unfolding transaction_witness
witness-IsWitnessed p (balance_of a) c x = λ q. cc
witness-IsWitnessed p metadata c x = λ q. cc
witness-IsWitnessed p commit_state c x = tt
witness-IsWitnessed p (transfer a) c x = bind-IsWitnessed x _ (λ y q. cc)
witness-IsWitnessed p (approve a) c x = bind-IsWitnessed x _ (λ y q. cc)
witness-IsWitnessed p (transfer_from a) c x = bind-IsWitnessed x _ (λ y q. cc)
witness-IsWitnessed p (add_liquidity_amounts a) c x = bind-IsWitnessed x _ (λ y q. cc)
witness-IsWitnessed p (add_token a) c x = bind-IsWitnessed x _ (λ y q. cc)
witness-IsWitnessed p (update_token a) c x = bind-IsWitnessed x _ (λ y q. cc)
witness-IsWitnessed p (remove_liquidity_amounts a) c x = bind-IsWitnessed x _ (λ y q. cc)
witness-IsWitnessed p (user_balances a) c x = bind-IsWitnessed x _ (λ y q. cc)
witness-IsWitnessed p (claims a) c x = bind-IsWitnessed x _ (λ y q. cc)
witness-IsWitnessed p (add_liquidity a) c x =
    bind-IsWitnessed x _ (λ y. settled-IsWitnessed p (add_liquidity a) _ y.status y.transfer_ids y)
witness-IsWitnessed p (add_pool a) c x =
    bind-IsWitnessed x _ (λ y. settled-IsWitnessed p (add_pool a) _ y.status y.transfer_ids y)
witness-IsWitnessed p (remove_liquidity a) c x =
    bind-IsWitnessed x _
      (λ y. settled-IsWitnessed p (remove_liquidity a) _ y.status y.transfer_ids y)
witness-IsWitnessed p (claim a) c x =
    bind-IsWitnessed x _ (λ y. settled-IsWitnessed p (claim a) _ y.status y.transfer_ids y)

-- What is recorded agrees with what is returned.
witnessed-Records :
    {W : Type 0} (r : Request) (x : Result (TransactionWitness × Reply r) Error) (m : Machine W)
    → IsWitnessed x
    → Records (witnessed r x).0 (lift (witnessed r x).1 m).0
unfolding lift
witnessed-Records r (ok (w, reply)) m h = (w, refl, h)
witnessed-Records r (err e) m h = refl

map_err-IsWitnessed :
    {A E F : Type 0} (f : E → F) (x : Result (TransactionWitness × A) E)
    → IsWitnessed x
    → IsWitnessed (map_err f x)
map_err-IsWitnessed f (ok x) h = h
map_err-IsWitnessed f (err e) h = tt

module _ {W : Type 0} (env : Env W) where
  outcome-Records :
      (canister_id : Principal) (r : Request) (answer : Result (Response r) Text) (m : Machine W)
      → let out = outcome env canister_id r answer in Records out.0 (lift out.1 m).0
  unfolding outcome lift
  outcome-Records c r (err error) m = refl
  outcome-Records c r (ok response) m =
      witnessed-Records r _ m (
        map_err-IsWitnessed env.errors.new_backend _ (witness-IsWitnessed env.printer r c response))

-- The entry at a position of the trail stays what it is while other messages run.
abbrev pub KeepsEntry : {W : Type 0} → Env W → ℕ → Type 0
KeepsEntry {W} env i =
    (w : W) (c : Canister) (t : StableTransaction)
    → get_elem? c.audit_trail i ≡ some t
    → get_elem? (env.others w c).audit_trail i ≡ some t

set_audit_trail_transaction_result_lem :
    (i : ℕ) (t s : StableTransaction) (trail : Trail)
    → get_elem? trail i ≡ some t
    → get_elem? (set_audit_trail_transaction_result i s trail) i ≡ some s
unfolding set_audit_trail_transaction_result
set_audit_trail_transaction_result_lem i t s trail h =
    rw (lt→ltb _ _ (get_elem?-lt trail i h)) (get_elem?-set_self trail i s h)

-- The part of a call after its answer, where its entry is in the trail.
finish :
    {W A : Type 0} (env : Env W) (i : ℕ) (t s : StableTransaction) (x : Result A Error)
    (m : Machine W)
    → KeepsEntry env i
    → get_elem? m.canister.audit_trail i ≡ some t
    → env.fits s ≡ true
    → let (flow, after) =
        (record_result env (some i) s >> (agent_call env env.id commit_state >> lift x)) m in
      (get_elem? after.canister.audit_trail i ≡ some s)
      × (flow ≡ (lift x m).0)
      × (after.committed ≡ after.canister)
unfolding ◌>>=◌ emit_transaction agent_call
finish env i t s (ok a) m others h fits = rw fits (
  others _ _ s (set_audit_trail_transaction_result_lem i t s m.canister.audit_trail h),
  refl,
  refl,
)
finish env i t s (err e) m others h fits = rw fits (
  others _ _ s (set_audit_trail_transaction_result_lem i t s m.canister.audit_trail h),
  refl,
  refl,
)

-- The transaction that a call begins with, and with its result.
abbrev pub announced :
    {W : Type 0}
    → Env W
    → TreasuryManagerOperation
    → Principal
    → Text
    → Machine W
    → Result TransactionWitness Error
    → StableTransaction
announced env op p purpose m result = record {
  timestamp_ns = env.time_ns m.world;
  canister_id = p;
  result = result;
  human_readable = purpose;
  operation = op;
}

-- Whatever the called canister answers, and whatever other messages do while the call is awaited, as
-- long as they leave this entry alone, the trail can grow, and the entry is within the bound of the
-- stable vector both as it is announced and with the result of the call: the call does not trap; the entry that
-- it began with holds its operation, canister, purpose and starting time and the very result that the
-- program goes on with, a witness or an error, never the placeholder; and the state that holds it is
-- committed, so that no later trap can lose it.
pub emit_transaction-Records :
    {W : Type 0} (env : Env W) (operation : TreasuryManagerOperation) (canister_id : Principal)
    (r : Request) (human_readable : Text) (m : Machine W)
    → env.grows m.world ≡ true
    → KeepsEntry env (length m.canister.audit_trail)
    → env.fits (announced env operation canister_id human_readable m (ok pending)) ≡ true
    → env.fits (
        announced env operation canister_id human_readable m
          (outcome env canister_id r (env.call canister_id r m.world).0).0)
      ≡ true
    → let (flow, after) = emit_transaction env operation canister_id r human_readable m in
      (result : Result TransactionWitness Error) × (get_elem? after.canister.audit_trail
          (length m.canister.audit_trail)
        ≡ some (record {
          timestamp_ns = env.time_ns m.world;
          canister_id = canister_id;
          result = result;
          human_readable = human_readable;
          operation = operation;
        }))
      × Records result flow
      × (after.committed ≡ after.canister)
unfolding emit_transaction push_audit_trail_transaction
emit_transaction-Records {W} env operation canister_id r human_readable m grew others small fits =
    let i = length m.canister.audit_trail in
    let (answer, world) = env.call canister_id r m.world in
    let out = outcome env canister_id r answer in
    let entry = λ (result : Result TransactionWitness Error).
      let t : StableTransaction = record {
        timestamp_ns = env.time_ns m.world;
        canister_id = canister_id;
        result = result;
        human_readable = human_readable;
        operation = operation;
      } in
      t in
    let pushed : Canister = record m.canister {
      audit_trail = m.canister.audit_trail ++ entry (ok pending) ∷ [];
    } in
    let resumed = env.others world pushed in
    let m' : Machine W = record m { canister = resumed; committed = resumed; world = world } in
    let waited =
      others world pushed (entry (ok pending))
        (get_elem?-append_new m.canister.audit_trail (entry (ok pending))) in
    let (recorded, returned, committed) =
      finish env i (entry (ok pending)) (entry out.0) out.1 m' others waited fits in
    rw (grew, small, push_audit_trail_transaction)
      (out.0, recorded, rw returned (outcome-Records env canister_id r answer m'), committed)

-- An entry that is within the bound of the stable vector when it is announced, but not with the result
-- of the call, such as a long error: although the call has been made, it traps, and the entry stays with
-- the pending placeholder in the state that remains. The trail is to have room, and the other messages
-- to leave the entry alone.
pub emit_transaction-oversized :
    {W : Type 0} (env : Env W) (operation : TreasuryManagerOperation) (canister_id : Principal)
    (r : Request) (human_readable : Text) (m : Machine W)
    → env.grows m.world ≡ true
    → KeepsEntry env (length m.canister.audit_trail)
    → env.fits (announced env operation canister_id human_readable m (ok pending)) ≡ true
    → env.fits (
        announced env operation canister_id human_readable m
          (outcome env canister_id r (env.call canister_id r m.world).0).0)
      ≡ false
    → let (flow, after) = emit_transaction env operation canister_id r human_readable m in
      (flow ≡ trapped)
      × (get_elem? after.canister.audit_trail (length m.canister.audit_trail)
          ≡ some (announced env operation canister_id human_readable m (ok pending)))
unfolding emit_transaction push_audit_trail_transaction
emit_transaction-oversized env operation canister_id r human_readable m grew others small long =
    let t = announced env operation canister_id human_readable m (ok pending) in
    let trail = m.canister.audit_trail in
    let world = (env.call canister_id r m.world).1 in
    let pushed : Canister = record m.canister { audit_trail = trail ++ t ∷ [] } in
    let waited = others world pushed t (get_elem?-append_new trail t) in
    let inside =
      lt→ltb _ _ (get_elem?-lt (env.others world pushed).audit_trail (length trail) waited) in
    rw (grew, small, long, inside) (refl, waited)
