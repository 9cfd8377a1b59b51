-- ===== src/Run/Enums.antt =====
-- The states and events of a stack (pkg/run/machine.go, the constants). Both are string types in
-- the source; `unset` is the empty string, the state of an instance that nothing has set yet.
use floatlab_core.Base.{
  ℕ, zero, suc, ◌≡◌, refl, sym, ap, ◌∙◌, ◌↔◌, true, Bool, Eq, nat_beq, nat_beq_iff,
}

pub data State : Type 0 where
  provisioning idle starting running_primary failing_over running_backup restoring : State
  stopping updating rolling_back failed unset : State

pub data Event : Type 0 where
  create_stack backup_restore_start backup_restore_prepared provision_done start_stack : Event
  start_done start_failed fail_stack failover_start failover_done failover_failed : Event
  restore_start restore_done restore_failed stop_stack stop_done update_stack update_done : Event
  update_failed rollback_done rollback_failed purge_stack : Event

abbrev state_code : State → ℕ
state_code provisioning = 0
state_code idle = 1
state_code starting = 2
state_code running_primary = 3
state_code failing_over = 4
state_code running_backup = 5
state_code restoring = 6
state_code stopping = 7
state_code updating = 8
state_code rolling_back = 9
state_code failed = 10
state_code unset = 11

abbrev state_of : ℕ → State
state_of zero = provisioning
state_of (suc zero) = idle
state_of (suc (suc zero)) = starting
state_of (suc (suc (suc zero))) = running_primary
state_of (suc (suc (suc (suc zero)))) = failing_over
state_of (suc (suc (suc (suc (suc zero))))) = running_backup
state_of (suc (suc (suc (suc (suc (suc zero)))))) = restoring
state_of (suc (suc (suc (suc (suc (suc (suc zero))))))) = stopping
state_of (suc (suc (suc (suc (suc (suc (suc (suc zero)))))))) = updating
state_of (suc (suc (suc (suc (suc (suc (suc (suc (suc zero))))))))) = rolling_back
state_of (suc (suc (suc (suc (suc (suc (suc (suc (suc (suc zero)))))))))) = failed
state_of _ = unset

state_of-code : (x : State) → state_of (state_code x) ≡ x
state_of-code provisioning = refl
state_of-code idle = refl
state_of-code starting = refl
state_of-code running_primary = refl
state_of-code failing_over = refl
state_of-code running_backup = refl
state_of-code restoring = refl
state_of-code stopping = refl
state_of-code updating = refl
state_of-code rolling_back = refl
state_of-code failed = refl
state_of-code unset = refl

abbrev state_beq : State → State → Bool
state_beq a b = nat_beq (state_code a) (state_code b)

pub state_beq_iff : (a b : State) → (state_beq a b ≡ true) ↔ (a ≡ b)
state_beq_iff a b = (
  λ h. sym (state_of-code a) ∙ ap state_of ((nat_beq_iff _ _).0 h) ∙ state_of-code b,
  λ e. (nat_beq_iff _ _).1 (ap state_code e),
)

instance abbrev pub state_eq : Eq State
state_eq = record { beq = state_beq; beq_iff = state_beq_iff }

abbrev event_code : Event → ℕ
event_code create_stack = 0
event_code backup_restore_start = 1
event_code backup_restore_prepared = 2
event_code provision_done = 3
event_code start_stack = 4
event_code start_done = 5
event_code start_failed = 6
event_code fail_stack = 7
event_code failover_start = 8
event_code failover_done = 9
event_code failover_failed = 10
event_code restore_start = 11
event_code restore_done = 12
event_code restore_failed = 13
event_code stop_stack = 14
event_code stop_done = 15
event_code update_stack = 16
event_code update_done = 17
event_code update_failed = 18
event_code rollback_done = 19
event_code rollback_failed = 20
event_code purge_stack = 21

abbrev event_of : ℕ → Event
event_of zero = create_stack
event_of (suc zero) = backup_restore_start
event_of (suc (suc zero)) = backup_restore_prepared
event_of (suc (suc (suc zero))) = provision_done
event_of (suc (suc (suc (suc zero)))) = start_stack
event_of (suc (suc (suc (suc (suc zero))))) = start_done
event_of (suc (suc (suc (suc (suc (suc zero)))))) = start_failed
event_of (suc (suc (suc (suc (suc (suc (suc zero))))))) = fail_stack
event_of (suc (suc (suc (suc (suc (suc (suc (suc zero)))))))) = failover_start
event_of (suc (suc (suc (suc (suc (suc (suc (suc (suc zero))))))))) = failover_done
event_of (suc (suc (suc (suc (suc (suc (suc (suc (suc (suc zero)))))))))) = failover_failed
event_of (suc (suc (suc (suc (suc (suc (suc (suc (suc (suc (suc zero))))))))))) = restore_start
event_of (suc (suc (suc (suc (suc (suc (suc (suc (suc (suc (suc (suc zero)))))))))))) = restore_done
event_of (suc (suc (suc (suc (suc (suc (suc (suc (suc (suc (suc (suc (suc zero))))))))))))) =
    restore_failed
event_of (suc (suc (suc (suc (suc (suc (suc (suc (suc (suc (suc (suc (suc (suc zero)))))))))))))) =
    stop_stack
event_of
      (suc
        (suc (suc (suc (suc (suc (suc (suc (suc (suc (suc (suc (suc (suc (suc zero))))))))))))))) =
    stop_done
event_of
      (suc (
        suc (
          suc
            (suc (suc (suc (suc (suc (suc (suc (suc (suc (suc (suc (suc (suc zero)))))))))))))))) =
    update_stack
event_of
      (suc (
        suc (
          suc (
            suc (
              suc
                (suc (suc (suc (suc (suc (suc (suc (suc (suc (suc (suc (suc zero))))))))))))))))) =
    update_done
event_of
      (suc (
        suc (
          suc (
            suc (
              suc (
                suc (
                  suc
                    (suc (suc (suc (suc (suc (suc (suc (suc (suc (suc (suc zero)))))))))))))))))) =
    update_failed
event_of
      (suc (
        suc (
          suc (
            suc (
              suc (
                suc (
                  suc (
                    suc (
                      suc
                        (suc (suc (suc (suc (suc (suc (suc (suc (suc (suc zero))))))))))))))))))) =
    rollback_done
event_of
      (suc (
        suc (
          suc (
            suc (
              suc (
                suc (
                  suc (
                    suc (
                      suc (
                        suc (
                          suc
                            (suc (suc (suc (suc (suc (suc (suc (suc (suc zero)))))))))))))))))))) =
    rollback_failed
event_of _ = purge_stack

event_of-code : (x : Event) → event_of (event_code x) ≡ x
event_of-code create_stack = refl
event_of-code backup_restore_start = refl
event_of-code backup_restore_prepared = refl
event_of-code provision_done = refl
event_of-code start_stack = refl
event_of-code start_done = refl
event_of-code start_failed = refl
event_of-code fail_stack = refl
event_of-code failover_start = refl
event_of-code failover_done = refl
event_of-code failover_failed = refl
event_of-code restore_start = refl
event_of-code restore_done = refl
event_of-code restore_failed = refl
event_of-code stop_stack = refl
event_of-code stop_done = refl
event_of-code update_stack = refl
event_of-code update_done = refl
event_of-code update_failed = refl
event_of-code rollback_done = refl
event_of-code rollback_failed = refl
event_of-code purge_stack = refl

abbrev event_beq : Event → Event → Bool
event_beq a b = nat_beq (event_code a) (event_code b)

pub event_beq_iff : (a b : Event) → (event_beq a b ≡ true) ↔ (a ≡ b)
event_beq_iff a b = (
  λ h. sym (event_of-code a) ∙ ap event_of ((nat_beq_iff _ _).0 h) ∙ event_of-code b,
  λ e. (nat_beq_iff _ _).1 (ap event_code e),
)

instance abbrev pub event_eq : Eq Event
event_eq = record { beq = event_beq; beq_iff = event_beq_iff }
