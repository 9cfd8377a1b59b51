-- ===== src/Raft/Delivery.antt =====
-- What a subscriber of the state machine finds in its channel (pkg/raft/fsm.go).
use floatlab_core.Base.{
  Bool-cases, List, Map, [], ap, append_assoc, arith, false, if◌then◌else◌, inl, inr, length,
  length-append, lookup, ltb, nat_eq, refl, some, some-inj, string_eq, sym, take, take-length,
  take-short, ℕ, ◌++◌, ◌==◌, ◌∙◌, ◌∷◌, ◌≡◌, ◌≤◌,
}
use floatlab_core.Run.{event_eq, state_eq}
use floatlab_core.Raft.{
  Channel, Fsm, StackStateChanged, apply_entry, channel_size, fan_out, replay, send, send_all,
}

lookup-send_all :
    (id : ℕ) (e : StackStateChanged) (subs : Map ℕ Channel) (ch : Channel)
    → lookup id subs ≡ some ch
    → lookup id (send_all e subs) ≡ some (send e ch)
unfolding lookup send_all
lookup-send_all id e [] ch h = cc
lookup-send_all id e ((j, c) ∷ subs) ch h = elim (Bool-cases (j == id)) [
  | inl t ↦
      ap (λ b. if b then some (send e c) else lookup id (send_all e subs)) t
      ∙ ap (λ c. some (send e c))
          (some-inj (ap (λ b. if b then some c else lookup id subs) (sym t) ∙ h))
  | inr n ↦
      ap (λ b. if b then some (send e c) else lookup id (send_all e subs)) n
      ∙ lookup-send_all id e subs ch (ap (λ b. if b then some c else lookup id subs) (sym n) ∙ h)
]

++-nil : (ch : Channel) → ch ++ [] ≡ ch
++-nil [] = refl
++-nil (e ∷ ch) = ap (λ c. e ∷ c) (++-nil ch)

length-send :
    (e : StackStateChanged) (ch : Channel)
    → length ch ≤ channel_size
    → length (send e ch) ≤ channel_size
unfolding send
length-send e ch h = ground (arith, length-append ch (e ∷ []))

-- A full channel keeps its entries, another one takes the entry at its end.
take-send :
    (e : StackStateChanged) (ch es : Channel)
    → length ch ≤ channel_size
    → take channel_size (send e ch ++ es) ≡ take channel_size (ch ++ e ∷ es)
unfolding send
take-send e ch es h = elim (Bool-cases (ltb (length ch) channel_size)) [
  | inl t ↦
      ap (λ b. take channel_size ((if b then ch ++ e ∷ [] else ch) ++ es)) t
      ∙ ap (take channel_size) (append_assoc ch (e ∷ []) es)
  | inr n ↦
      ap (λ b. take channel_size ((if b then ch ++ e ∷ [] else ch) ++ es)) n
      ∙ sym (ap (λ k. take k (ch ++ es)) (full n))
      ∙ take-length ch es
      ∙ sym (take-length ch (e ∷ es))
      ∙ ap (λ k. take k (ch ++ e ∷ es)) (full n)
]
  where
    full : ltb (length ch) channel_size ≡ false → length ch ≡ channel_size
    full n = ground arith

-- A subscriber that has read nothing since its channel held `ch` (at most 64 entries) finds there,
-- after the entries `es`, the first 64 of `ch ++ es`: it loses no entry before its buffer is full,
-- what it loses is the newest, and another subscriber never delays it.
pub delivered :
    (id : ℕ) (es : List StackStateChanged) (f : Fsm) (ch : Channel)
    → length ch ≤ channel_size
    → lookup id f.subs ≡ some ch
    → lookup id (replay es f).subs ≡ some (take channel_size (ch ++ es))
unfolding replay apply_entry fan_out
delivered id [] f ch h s =
    s ∙ ap some (sym (ap (take channel_size) (++-nil ch) ∙ take-short channel_size ch h))
delivered id (e ∷ es) f ch h s =
    delivered id es (apply_entry e f) (send e ch) (length-send e ch h)
      (lookup-send_all id e f.subs ch s)
    ∙ ap some (take-send e ch es h)
