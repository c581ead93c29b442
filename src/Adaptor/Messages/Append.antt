-- ===== src/Adaptor/Messages/Append.antt =====
-- The audit trail under the messages.
use sns_kongswap_adaptor.Base.{◌≤◌, ◌≡◌, Bool, List, length, arith}
use sns_kongswap_adaptor.Arithmetics.{u64_max}
use sns_kongswap_adaptor.Sns.{Principal}
use sns_kongswap_adaptor.AuditTrail.{Trail}
use sns_kongswap_adaptor.AuditTrail.Append.{
  Extends, Grows, Grows-refl, Grows-trans, Grows-append, Grows-record, Grows-finalize,
}
use sns_kongswap_adaptor.Machine.{Env, Machine, Canister}
use sns_kongswap_adaptor.Machine.Emit.Invariant.{emit_transaction-Keeps, appended}
use sns_kongswap_adaptor.Adaptor.Invariant.Manager.{IsInvariantOfAll}
use sns_kongswap_adaptor.Machine.Keeps.{Unit-IsReadable}
use sns_kongswap_adaptor.Adaptor.Messages.{Message, process_all, process_all-Holds}

-- The messages that run while a call is awaited only add to the trail.
abbrev pub OthersAppend : {W : Type 0} → Env W → Type 0
OthersAppend {W} env = (w : W) (c : Canister) → Grows c.audit_trail (env.others w c).audit_trail

append-IsInvariant :
    {W : Type 0} {env : Env W} (s : Trail)
    → OthersAppend env
    → IsInvariantOfAll env Unit (λ c. Grows s c.audit_trail)
append-IsInvariant {env} s others op = record {
  admitted = tt;
  emit = emit_transaction-Keeps Unit tt (record {
    others = λ w c h. Grows-trans h (others w c);
    appending = λ t c h. Grows-trans h (Grows-append c.audit_trail t);
    recording = λ w t result c h. Grows-trans h (
        Grows-record c.audit_trail (env.others w (appended t c)).audit_trail t
          (record t { result = result }) (others w (appended t c)) (ground arith));
  });
  update = λ u p c h. h;
  finalize = λ op c h. Grows-trans h (Grows-finalize op c.audit_trail);
  read = λ c h. Unit-IsReadable c.balances;
}

-- From a committed state, whatever messages arrive, whatever is answered to their calls, and also
-- when a handler errs or traps: as long as the messages that run during the calls only add to the
-- audit trail too, the trail gets no shorter, and if it ends with fewer than 2 ^ 64 entries, every
-- entry that it had is still there, at its index, with its time, canister, purpose, operation and
-- step number.
pub process_all-Extends :
    {W : Type 0} (env : Env W) (is_controller : Principal → Bool) (messages : List Message)
    (m : Machine W)
    → OthersAppend env
    → m.committed ≡ m.canister
    → let trail = (process_all env is_controller messages m).canister.audit_trail in
      (length m.canister.audit_trail ≤ length trail)
      × (length trail ≤ u64_max → Extends m.canister.audit_trail trail)
process_all-Extends env f messages m others h =
    let grown =
      (process_all-Holds (append-IsInvariant m.canister.audit_trail others) f messages m
        (Grows-refl m.canister.audit_trail, rw h (Grows-refl m.canister.audit_trail))).0 in
    (grown.longer, grown.extends)
